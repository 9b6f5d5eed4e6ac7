-- ===== src/Config/Valid.antt =====
-- What a configuration that is loaded satisfies.
use qdt_test.Common.{
  ℕ, ◌<◌, Text, codes, text_eq, text_eq_refl, ◌≡◌, ◌≢◌, ◌↔◌, ◌⊎◌, inl, inr, refl, Bool, true, false,
  not, ◌&&◌, [], ◌++◌, Result, ok, ◌>>◌, cut_prefix, cut_prefix_sound, arith, Bool-cases,
  Option-cases,
}
use qdt_test.Config.{Config, ConfigError, validate, unless, signed_leb, nothing, has_prefix}

abbrev IsPositive : Bool × ℕ → Type 0
IsPositive (negative, n) = (negative ≡ false) × (0 < n)

abbrev StartsWith : Text → Text → Type 0
StartsWith p s = (rest : Text) × (s ≡ p ++ rest)

-- What the service relies on: a token, a path, a polling interval, a lease that is longer than it, a
-- batch that is not empty, and an absolute base for the links.
pub record IsValid (c : Config) : Type 0 where
  pub token : c.admin_api_token ≢ []
  pub path : c.db_path ≢ []
  pub poll : IsPositive c.poll_interval
  pub lease : (c.lease_ttl.0 ≡ false) × (c.poll_interval.1 < c.lease_ttl.1)
  pub batch : IsPositive c.batch_size
  pub base :
      StartsWith (codes "http://") c.public_base_url
      ⊎ StartsWith (codes "https://") c.public_base_url

unless-passed :
    (e : ConfigError) (b : Bool) (k : Result ConfigError (Unit {0}))
    → (unless e b >> k) ≡ ok tt
    → (b ≡ false) × (k ≡ ok tt)
unless-passed e true k h = absurd (cc h)
unless-passed e false k h = (refl, h)

nonempty : (s : Text) → text_eq s [] ≡ false → s ≢ []
nonempty s h e = absurd (cc (rw e at h, text_eq_refl []))

nonempty_test : (s : Text) → s ≢ [] → text_eq s [] ≡ false
nonempty_test s h = ground arith

positive : (n : Bool × ℕ) → signed_leb n nothing ≡ false → IsPositive n
positive (true, n) h = absurd (cc h)
positive (false, n) h = (refl, ground arith)

has_prefix-StartsWith : (p s : Text) → has_prefix p s ≡ true → StartsWith p s
has_prefix-StartsWith p s h = elim (Option-cases (cut_prefix p s)) [
  | inl missing ↦ absurd (ground (arith, missing))
  | inr (rest, found) ↦ (rest, cut_prefix_sound p s rest found)
]

longer : (n m : Bool × ℕ) → IsPositive m → signed_leb n m ≡ false → (n.0 ≡ false) × (m.1 < n.1)
longer (true, n) (false, m) x h = absurd (cc h)
longer (true, n) (true, m) x h = absurd (cc x.0)
longer (false, n) (true, m) x h = absurd (cc x.0)
longer (false, n) (false, m) x h = (refl, ground arith)

unless-last : (e : ConfigError) (b : Bool) → unless e b ≡ ok tt → b ≡ false
unless-last e true h = absurd (cc h)
unless-last e false h = refl

abbrev HasScheme : Text → Type 0
HasScheme s = StartsWith (codes "http://") s ⊎ StartsWith (codes "https://") s

based :
    (s : Text)
    → (not (has_prefix (codes "http://") s) && not (has_prefix (codes "https://") s)) ≡ false
    → HasScheme s
based s h = elim (Bool-cases (has_prefix (codes "http://") s)) [
  | inl plain ↦ inl (has_prefix-StartsWith (codes "http://") s plain)
  | inr other ↦ inr (has_prefix-StartsWith (codes "https://") s (ground (arith, h, other)))
]

based_test :
    (s : Text)
    → HasScheme s
    → (not (has_prefix (codes "http://") s) && not (has_prefix (codes "https://") s)) ≡ false
based_test s (inl (rest, e)) = rw e refl
based_test s (inr (rest, e)) =
    let secure : has_prefix (codes "https://") s ≡ true = rw e refl in ground (arith, secure)

positive_test : (n : Bool × ℕ) → IsPositive n → signed_leb n nothing ≡ false
positive_test (true, n) x = absurd (cc x.0)
positive_test (false, n) x = ground arith

longer_test : (n m : Bool × ℕ) → IsPositive m → (n.0 ≡ false) × (m.1 < n.1) → signed_leb n m ≡ false
longer_test (true, n) m x y = absurd (cc y.0)
longer_test (false, n) (true, m) x y = absurd (cc x.0)
longer_test (false, n) (false, m) x y = ground arith

pub validate-IsValid : (c : Config) → validate c ≡ ok tt → IsValid c
unfolding validate
validate-IsValid c h =
    let (token, h1) = unless-passed _ _ _ h in
    let (path, h2) = unless-passed _ _ _ h1 in
    let (poll, h3) = unless-passed _ _ _ h2 in
    let (lease, h4) = unless-passed _ _ _ h3 in
    let (batch, h5) = unless-passed _ _ _ h4 in
    let poll_positive : IsPositive c.poll_interval = positive c.poll_interval poll in
    record {
      token = nonempty c.admin_api_token token;
      path = nonempty c.db_path path;
      poll = poll_positive;
      lease = longer c.lease_ttl c.poll_interval poll_positive lease;
      batch = positive c.batch_size batch;
      base = based c.public_base_url (unless-last _ _ h5);
    }

IsValid-validate : (c : Config) → IsValid c → validate c ≡ ok tt
unfolding validate
IsValid-validate c v =
    rw
      (
        nonempty_test c.admin_api_token v.token,
        nonempty_test c.db_path v.path,
        positive_test c.poll_interval v.poll,
        longer_test c.lease_ttl c.poll_interval v.poll v.lease,
        positive_test c.batch_size v.batch,
        based_test c.public_base_url v.base,
      )
      refl

-- The checks accept exactly the configurations with a token, a path, a positive polling interval, a
-- lease that is longer than it, a batch that is not empty, and a base under http or https.
pub validate_iff : (c : Config) → (validate c ≡ ok tt) ↔ IsValid c
validate_iff c = (validate-IsValid c, IsValid-validate c)
