-- ===== src/Config/Loaded.antt =====
-- What loading a configuration gives.
use qdt_test.Config.Base.{trim_slashes_end}
use qdt_test.Config.Valid.{IsValid, validate-IsValid}
use qdt_test.Common.{
  ℕ, ◌<◌, Text, codes, ◌≡◌, ◌≢◌, inl, inr, refl, sym, ap, ◌∙◌, subst, Option, none, some, Bool,
  true, false, [], ◌∷◌, ◌++◌, Result, ok, err, ◌>>=◌, ◌>>◌, arith, Option-cases,
}
use qdt_test.Config.Duration.{parse_duration, half}
use qdt_test.Config.Duration
use qdt_test.Config.Duration.Bounds.{parse_duration_ends, parse_duration-bounds}
use qdt_test.Httpapi.Etag.{parse_int}
use qdt_test.Config.{
  Config, ConfigError, stuck, Env, validate, trim_slashes, load, read, assemble, seconds,
  env_duration, env_string, duration_or, env_int, int_or, integer_or, duration_read,
}

duration_read-ok :
    (key v : Text) (d : Bool × ℕ) (r : Result Duration.DurationError (Bool × ℕ))
    → duration_read key v r ≡ ok d
    → r ≡ ok d
unfolding duration_read
duration_read-ok key v d (err Duration.stuck) h = absurd (cc h)
duration_read-ok key v d (err Duration.invalid) h = absurd (cc h)
duration_read-ok key v d (ok e) h = let same : e ≡ d = cc h in rw same refl

duration_read-stuck :
    (key v : Text) (r : Result Duration.DurationError (Bool × ℕ))
    → duration_read key v r ≡ err stuck
    → r ≡ err Duration.stuck
unfolding duration_read
duration_read-stuck key v (err Duration.stuck) h = refl
duration_read-stuck key v (err Duration.invalid) h = absurd (cc h)
duration_read-stuck key v (ok e) h = absurd (cc h)

int_or_ends : (key : Text) (def : Bool × ℕ) (v : Option Text) → int_or key def v ≢ err stuck
unfolding int_or integer_or
int_or_ends key def none h = absurd (cc h)
int_or_ends key def (some []) h = absurd (cc h)
int_or_ends key def (some (c ∷ s)) h = elim (Option-cases (parse_int (c ∷ s))) [
  | inl no_number ↦ absurd (cc (rw no_number at h))
  | inr (n, number) ↦ absurd (cc (rw number at h))
]

-- What the steps of the reading have given.
four_ok :
    (p l g b : Result ConfigError (Bool × ℕ))
    (k : Bool × ℕ → Bool × ℕ → Bool × ℕ → Bool × ℕ → Config) (c : Config)
    → (p >>= λ x. l >>= λ y. g >>= λ z. b >>= λ n. ok (k x y z n)) ≡ ok c
    → (x : Bool × ℕ) × (y : Bool × ℕ) × (z : Bool × ℕ) × (n : Bool × ℕ) × (p ≡ ok x)
      × (l ≡ ok y)
      × (k x y z n ≡ c)
four_ok (ok x) (ok y) (ok z) (ok n) k c h = (x, y, z, n, refl, refl, cc h)
four_ok (ok x) (ok y) (ok z) (err e) k c h = absurd (cc h)
four_ok (ok x) (ok y) (err e) b k c h = absurd (cc h)
four_ok (ok x) (err e) g b k c h = absurd (cc h)
four_ok (err e) l g b k c h = absurd (cc h)

four_err :
    (e : ConfigError) (p l g b : Result ConfigError (Bool × ℕ))
    (k : Bool × ℕ → Bool × ℕ → Bool × ℕ → Bool × ℕ → Config)
    → p ≢ err e
    → l ≢ err e
    → g ≢ err e
    → b ≢ err e
    → (p >>= λ x. l >>= λ y. g >>= λ z. b >>= λ n. ok (k x y z n)) ≢ err e
four_err e (ok x) (ok y) (ok z) (ok n) k p l g b h = absurd (cc h)
four_err e (ok x) (ok y) (ok z) (err d) k p l g b h = b (cc h)
four_err e (ok x) (ok y) (err d) _ k p l g b h = g (cc h)
four_err e (ok x) (err d) _ _ k p l g b h = l (cc h)
four_err e (err d) _ _ _ k p l g b h = p (cc h)

then_ok :
    (u : Result ConfigError (Unit {0})) (d c : Config) → (u >> ok d) ≡ ok c → (u ≡ ok tt) × (d ≡ c)
then_ok (ok tt) d c h = (refl, cc h)
then_ok (err e) d c h = absurd (cc h)

checked_ok :
    (r : Result ConfigError Config) (c : Config)
    → (r >>= λ d. validate d >> ok d) ≡ ok c
    → (r ≡ ok c) × (validate c ≡ ok tt)
checked_ok (err e) c h = absurd (cc h)
checked_ok (ok d) c h =
    let (passed, same) = then_ok (validate d) d c h in
    (ap ok same, subst (λ x. validate x ≡ ok tt) same passed)

then_err :
    (e : ConfigError) (u : Result ConfigError (Unit {0})) (d : Config)
    → u ≢ err e
    → (u >> ok d) ≢ err e
then_err e (ok tt) d u h = absurd (cc h)
then_err e (err f) d u h = u (cc h)

validate_ends : (c : Config) → validate c ≢ err stuck
unfolding validate
validate_ends c h = ground arith

checked_err :
    (r : Result ConfigError Config) → r ≢ err stuck → (r >>= λ d. validate d >> ok d) ≢ err stuck
checked_err (err e) r h = r (cc h)
checked_err (ok d) r h = then_err stuck (validate d) d (validate_ends d) h

module _ (product : ℕ → ℕ → ℕ → ℕ) where
  IsInt64 : Bool × ℕ → Type 0
  IsInt64 (negative, n) = negative ≡ false → n < half

  duration_or-IsInt64 :
      (key : Text) (def d : Bool × ℕ) (v : Option Text)
      → IsInt64 def
      → duration_or product key def v ≡ ok d
      → IsInt64 d
  unfolding duration_or IsInt64
  duration_or-IsInt64 key def d none small h = subst IsInt64 (cc h) small
  duration_or-IsInt64 key def d (some []) small h = subst IsInt64 (cc h) small
  duration_or-IsInt64 key def (negative, n) (some (c ∷ s)) small h =
      int64 negative (duration_read-ok key (c ∷ s) (negative, n) (parse_duration product (c ∷ s)) h)
    where
      int64 : (b : Bool) → parse_duration product (c ∷ s) ≡ ok (b, n) → IsInt64 (b, n)
      int64 true read_it positive = absurd (cc positive)
      int64 false read_it positive = parse_duration-bounds product (c ∷ s) n read_it

  duration_or_ends :
      (key : Text) (def : Bool × ℕ) (v : Option Text) → duration_or product key def v ≢ err stuck
  unfolding duration_or
  duration_or_ends key def none h = absurd (cc h)
  duration_or_ends key def (some []) h = absurd (cc h)
  duration_or_ends key def (some (c ∷ s)) h =
      parse_duration_ends product (c ∷ s)
        (duration_read-stuck key (c ∷ s) (parse_duration product (c ∷ s)) h)

  load_run :
      (env : Env) (c : Config)
      → load product env ≡ ok c
      → IsInt64 c.poll_interval
        × IsInt64 c.lease_ttl
        × ((s : Text) × (c.public_base_url ≡ trim_slashes s))
        × (validate c ≡ ok tt)
  unfolding load read assemble env_duration IsInt64
  load_run env c h =
      let (run, passed) = checked_ok (read product env) c h in
      let (poll, lease, grace, batch, p, l, built) =
        four_ok (env_duration product env (codes "SCHEDULER_POLL_INTERVAL") (seconds 1))
          (env_duration product env (codes "SCHEDULER_LEASE_TTL") (seconds 30))
          (env_duration product env (codes "SHUTDOWN_TIMEOUT") (seconds 10))
          (env_int env (codes "SCHEDULER_BATCH_SIZE") (false, 10)) (assemble env) c run in
      (
        subst (λ t. IsInt64 t.poll_interval) built
            (duration_or-IsInt64 (codes "SCHEDULER_POLL_INTERVAL") (seconds 1) poll
              (env (codes "SCHEDULER_POLL_INTERVAL")) (λ _. omega arith) p),
        subst (λ t. IsInt64 t.lease_ttl) built
            (duration_or-IsInt64 (codes "SCHEDULER_LEASE_TTL") (seconds 30) lease
              (env (codes "SCHEDULER_LEASE_TTL")) (λ _. omega arith) l),
        (
          env_string env (codes "PUBLIC_BASE_URL") (codes "http://localhost:8080"),
          ap (λ (t : Config). t.public_base_url) (sym built),
        ),
        passed,
      )

  -- Loading ends: the fuel of the reading of a duration, which is the length of its text, is enough for
  -- every environment.
  pub load_ends : (env : Env) → load product env ≢ err stuck
  unfolding load read env_duration env_int
  load_ends env h =
      checked_err (read product env)
        (four_err stuck
          (duration_or product (codes "SCHEDULER_POLL_INTERVAL") (seconds 1)
            (env (codes "SCHEDULER_POLL_INTERVAL")))
          (duration_or product (codes "SCHEDULER_LEASE_TTL") (seconds 30)
            (env (codes "SCHEDULER_LEASE_TTL")))
          (duration_or product (codes "SHUTDOWN_TIMEOUT") (seconds 10)
            (env (codes "SHUTDOWN_TIMEOUT")))
          (int_or (codes "SCHEDULER_BATCH_SIZE") (false, 10) (env (codes "SCHEDULER_BATCH_SIZE")))
          (assemble env)
          (duration_or_ends (codes "SCHEDULER_POLL_INTERVAL") (seconds 1)
            (env (codes "SCHEDULER_POLL_INTERVAL")))
          (duration_or_ends (codes "SCHEDULER_LEASE_TTL") (seconds 30)
            (env (codes "SCHEDULER_LEASE_TTL")))
          (duration_or_ends (codes "SHUTDOWN_TIMEOUT") (seconds 10)
            (env (codes "SHUTDOWN_TIMEOUT")))
          (int_or_ends (codes "SCHEDULER_BATCH_SIZE") (false, 10)
            (env (codes "SCHEDULER_BATCH_SIZE"))))
        h

  -- A configuration that is loaded is valid, its base does not end in a slash, and its polling interval
  -- and lease fit an int64.
  pub load-IsValid :
      (env : Env) (c : Config)
      → load product env ≡ ok c
      → IsValid c
        × ((t : Text) → c.public_base_url ≢ t ++ b'/' ∷ [])
        × (c.poll_interval.1 < half)
        × (c.lease_ttl.1 < half)
  unfolding IsInt64
  load-IsValid env c h =
      let (poll, lease, (s, trimmed), passed) = load_run env c h in
      let valid = validate-IsValid c passed in
      (
        valid,
        (λ t ends. trim_slashes_end s t (sym trimmed ∙ ends)),
        poll valid.poll.0,
        lease valid.lease.0,
      )
