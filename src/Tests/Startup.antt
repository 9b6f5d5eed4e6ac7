-- ===== src/Tests/Startup.antt =====
-- The theorems about the configuration, at one environment.
use qdt_test.Common.{
  ◌↔◌, ℕ, ◌*◌, ◌/◌, ◌<◌, Text, codes, text_eq, text_dec, if◌then◌else◌, ◌≡◌, ◌≢◌, refl, none, some,
  true, false, [], ◌∷◌, ◌++◌, ok, parse_digits,
}
use qdt_test.Config.{Config, Env, validate, load, trim_slashes}
use qdt_test.Config.Duration.{half, parse_duration}
use qdt_test.Config.Valid.{IsValid, validate_iff}
use qdt_test.Config.Loaded.{load-IsValid}
use qdt_test.Httpapi.Etag.{parse_int}

abbrev pub exact : ℕ → ℕ → ℕ → ℕ
exact f unit scale = f * unit / scale

abbrev pub environment : Env
environment key =
    if text_eq key (codes "ADMIN_API_TOKEN")
    then some (codes "secret")
    else if text_eq key (codes "SCHEDULER_POLL_INTERVAL")
    then some (codes "1m1.5s")
    else if text_eq key (codes "SCHEDULER_LEASE_TTL")
    then some (codes "2m")
    else if text_eq key (codes "SCHEDULER_BATCH_SIZE")
    then some (codes "25")
    else if text_eq key (codes "PUBLIC_BASE_URL")
    then some (codes "https://x//")
    else if text_eq key (codes "LOG_JSON")
    then some (codes "TRUE")
    else none

abbrev pub loaded : Config
loaded = record {
  addr = codes ":8080";
  db_path = codes "./data/qdt.db";
  admin_api_token = codes "secret";
  public_base_url = codes "https://x";
  poll_interval = (false, 61_500_000_000);
  lease_ttl = (false, 120_000_000_000);
  batch_size = (false, 25);
  shutdown_grace = (false, 10_000_000_000);
  scheduler_on = true;
  log_level_is_json = true;
}

pub loaded_so : load exact environment ≡ ok loaded
unfolding load validate trim_slashes parse_duration parse_int parse_digits text_dec
loaded_so = refl

validate_iff_example : (validate loaded ≡ ok tt) ↔ IsValid loaded
validate_iff_example = validate_iff loaded

load-IsValid_example :
    IsValid loaded
    × ((t : Text) → codes "https://x" ≢ t ++ b'/' ∷ [])
    × (61_500_000_000 < half)
    × (120_000_000_000 < half)
load-IsValid_example = load-IsValid exact environment loaded loaded_so
