-- ===== src/Config.antt =====
-- internal/config/config.go. An integer and a duration carry a flag for a number below zero; durations
-- are in nanoseconds.
pub mod Duration
pub mod Valid
mod Base
pub mod Loaded
pub mod Token
use qdt_test.Common.{
  ℕ, ◌*◌, Text, codes, text_eq, leb, ◌==◌, if◌then◌else◌, Option, none, some, Bool, true, false,
  ◌&&◌, ◌||◌, not, List, [], ◌∷◌, Result, ok, err, ◌>>=◌, ◌>>◌, cut_prefix,
}
use qdt_test.Httpapi.Etag.{parse_int}
use qdt_test.Config.Duration.{DurationError, parse_duration}
use qdt_test.Config.Duration

pub record Config : Type 0 where
  pub addr : Text
  pub db_path : Text
  pub admin_api_token : Text
  pub public_base_url : Text
  pub poll_interval : Bool × ℕ
  pub lease_ttl : Bool × ℕ
  pub batch_size : Bool × ℕ
  pub shutdown_grace : Bool × ℕ
  pub scheduler_on : Bool
  pub log_level_is_json : Bool

pub data ConfigError : Type 0 where
  not_integer not_duration : (key value : Text) → ConfigError
  stuck : ConfigError
  token_missing db_path_empty : ConfigError
  poll_not_positive : Bool × ℕ → ConfigError
  lease_too_short : Bool × ℕ → Bool × ℕ → ConfigError
  batch_not_positive : Bool × ℕ → ConfigError
  base_not_http : Text → ConfigError

-- `os.LookupEnv`.
abbrev pub Env : Type 0
Env = Text → Option Text

-- `strings.TrimRight` at slashes.
drop_slash : ℕ → Text → Text
drop_slash c [] = if c == b'/' then [] else c ∷ []
drop_slash c (d ∷ s) = c ∷ d ∷ s

unfoldable pub trim_slashes : Text → Text
unfolding drop_slash
trim_slashes [] = []
trim_slashes (c ∷ s) = drop_slash c (trim_slashes s)

abbrev pub has_prefix : Text → Text → Bool
has_prefix p s = elim (cut_prefix p s) [ none ↦ false | some _ ↦ true ]

-- `<=` on signed numbers.
abbrev pub signed_leb : Bool × ℕ → Bool × ℕ → Bool
signed_leb (true, m) (true, n) = leb n m
signed_leb (true, m) (false, n) = true
signed_leb (false, m) (true, n) = m == 0 && n == 0
signed_leb (false, m) (false, n) = leb m n

abbrev nothing : Bool × ℕ
nothing = (false, 0)

abbrev pub unless : ConfigError → Bool → Result ConfigError (Unit {0})
unless e b = if b then err e else ok tt

unfoldable pub validate : Config → Result ConfigError (Unit {0})
validate c = do
  unless token_missing (text_eq c.admin_api_token [])
  unless db_path_empty (text_eq c.db_path [])
  unless (poll_not_positive c.poll_interval) (signed_leb c.poll_interval nothing)
  unless (lease_too_short c.lease_ttl c.poll_interval) (signed_leb c.lease_ttl c.poll_interval)
  unless (batch_not_positive c.batch_size) (signed_leb c.batch_size nothing)
  unless (base_not_http c.public_base_url) (
      not (has_prefix (codes "http://") c.public_base_url)
      && not (has_prefix (codes "https://") c.public_base_url))

-- A variable that is not set or is empty takes the default.
abbrev pub string_or : Text → Option Text → Text
string_or def none = def
string_or def (some []) = def
string_or def (some (c ∷ s)) = c ∷ s

abbrev pub env_string : Env → Text → Text → Text
env_string env key def = string_or def (env key)

-- `strconv.ParseBool`.
abbrev pub parse_bool : Text → Option Bool
parse_bool s =
    if text_eq s (codes "1")
      || (text_eq s (codes "t")
          || (text_eq s (codes "T")
              || (text_eq s (codes "true")
                  || (text_eq s (codes "TRUE") || text_eq s (codes "True")))))
    then some true
    else if text_eq s (codes "0")
        || (text_eq s (codes "f")
            || (text_eq s (codes "F")
                || (text_eq s (codes "false")
                    || (text_eq s (codes "FALSE") || text_eq s (codes "False")))))
    then some false
    else none

abbrev or_default : Bool → Option Bool → Bool
or_default def none = def
or_default def (some b) = b

bool_or : Bool → Option Text → Bool
bool_or def none = def
bool_or def (some []) = def
bool_or def (some (c ∷ s)) = or_default def (parse_bool (c ∷ s))

pub env_bool : Env → Text → Bool → Bool
unfolding bool_or
env_bool env key def = bool_or def (env key)

integer_or : Text → Text → Option (Bool × ℕ) → Result ConfigError (Bool × ℕ)
integer_or key v none = err (not_integer key v)
integer_or key v (some n) = ok n

int_or : Text → Bool × ℕ → Option Text → Result ConfigError (Bool × ℕ)
unfolding integer_or
int_or key def none = ok def
int_or key def (some []) = ok def
int_or key def (some (c ∷ s)) = integer_or key (c ∷ s) (parse_int (c ∷ s))

pub env_int : Env → Text → Bool × ℕ → Result ConfigError (Bool × ℕ)
unfolding int_or
env_int env key def = int_or key def (env key)

duration_read : Text → Text → Result DurationError (Bool × ℕ) → Result ConfigError (Bool × ℕ)
duration_read key v (err Duration.stuck) = err stuck
duration_read key v (err Duration.invalid) = err (not_duration key v)
duration_read key v (ok d) = ok d

pub assemble : Env → Bool × ℕ → Bool × ℕ → Bool × ℕ → Bool × ℕ → Config
unfolding env_bool
assemble env poll lease grace batch = record {
  addr = env_string env (codes "ADDR") (codes ":8080");
  db_path = env_string env (codes "DB_PATH") (codes "./data/qdt.db");
  admin_api_token = env_string env (codes "ADMIN_API_TOKEN") [];
  public_base_url =
      trim_slashes (env_string env (codes "PUBLIC_BASE_URL") (codes "http://localhost:8080"));
  poll_interval = poll;
  lease_ttl = lease;
  batch_size = batch;
  shutdown_grace = grace;
  scheduler_on = env_bool env (codes "SCHEDULER_ENABLED") true;
  log_level_is_json = env_bool env (codes "LOG_JSON") false;
}

abbrev pub seconds : ℕ → Bool × ℕ
seconds n = (false, n * 1_000_000_000)

module _ (product : ℕ → ℕ → ℕ → ℕ) where
  duration_or : Text → Bool × ℕ → Option Text → Result ConfigError (Bool × ℕ)
  unfolding duration_read
  duration_or key def none = ok def
  duration_or key def (some []) = ok def
  duration_or key def (some (c ∷ s)) = duration_read key (c ∷ s) (parse_duration product (c ∷ s))

  pub env_duration : Env → Text → Bool × ℕ → Result ConfigError (Bool × ℕ)
  unfolding duration_or
  env_duration env key def = duration_or key def (env key)

  -- What is read, before it is validated.
  pub read : Env → Result ConfigError Config
  unfolding env_duration env_int assemble
  read env = do
    poll ← env_duration env (codes "SCHEDULER_POLL_INTERVAL") (seconds 1)
    lease ← env_duration env (codes "SCHEDULER_LEASE_TTL") (seconds 30)
    grace ← env_duration env (codes "SHUTDOWN_TIMEOUT") (seconds 10)
    batch ← env_int env (codes "SCHEDULER_BATCH_SIZE") (false, 10)
    ok (assemble env poll lease grace batch)

  unfoldable pub load : Env → Result ConfigError Config
  unfolding read
  load env = do c ← read env; validate c >> ok c
