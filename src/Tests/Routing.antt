-- ===== src/Tests/Routing.antt =====
-- The theorems about the router, at a router that picks the first route that fits.
use qdt_test.Common.{
  Text, codes, text_eq, ◌≡◌, refl, sym, subst, ◌↔◌, inl, inr, Option, none, some, Bool, true, false,
  if◌then◌else◌, List, [], ◌∷◌, ◌++◌, err, ok, arith, Bool-cases, Option-cases, trim_space,
  cut_prefix, text_dec,
}
use mathlib.Core.List.{Memᴰ}
use qdt_test.Store.Tx.{healthy}
use qdt_test.Store.History.{run, empty}
use qdt_test.Httpapi.Auth.{admits}
use qdt_test.Httpapi.Auth.Header.{admits_iff}
use qdt_test.Httpapi.Admin.{not_one_object}
use qdt_test.Httpapi.Routes.{
  Method, get, post, put, delete, Segment, word, variable, Route, Params, Matches, end, same, bound,
}
use qdt_test.Httpapi.Router.{Request, Server, Router, serve, unauthorized}
use qdt_test.Httpapi.Router.Token.{PicksMatching, no_token_no_write, admin_needs_token}
use qdt_test.Tests.{opening, page}

method_eq : Method → Method → Bool
method_eq get get = true
method_eq post post = true
method_eq put put = true
method_eq delete delete = true
method_eq _ _ = false

method_eq_sound : (m n : Method) → method_eq m n ≡ true → m ≡ n
unfolding method_eq
method_eq_sound get get h = refl
method_eq_sound post post h = refl
method_eq_sound put put h = refl
method_eq_sound delete delete h = refl
method_eq_sound _ _ h = cc

fit : List Segment → List Text → Option Params
fit [] [] = some []
fit [] (t ∷ ts) = none
fit (word a ∷ p) [] = none
fit (word a ∷ p) (t ∷ ts) = let rest = fit p ts in if text_eq a t then rest else none
fit (variable k ∷ p) [] = none
fit (variable k ∷ p) (t ∷ ts) = elim (fit p ts) [ none ↦ none | some ps ↦ some ((k, t) ∷ ps) ]

fit-Matches :
    (p : List Segment) (ts : List Text) (ps : Params) → fit p ts ≡ some ps → Matches p ts ps
unfolding fit
fit-Matches [] [] ps h = let none_bound : [] ≡ ps = cc h in subst (Matches [] []) none_bound end
fit-Matches [] (t ∷ ts) ps h = absurd (cc h)
fit-Matches (word a ∷ p) [] ps h = absurd (cc h)
fit-Matches (word a ∷ p) (t ∷ ts) ps h = elim (Bool-cases (text_eq a t)) [
  | inl equal ↦
      let first : a ≡ t = ground arith in
      subst (λ u. Matches (word a ∷ p) (u ∷ ts) ps) first
        (same (fit-Matches p ts ps (rw equal at h)))
  | inr other ↦ absurd (cc (rw other at h))
]
fit-Matches (variable k ∷ p) [] ps h = absurd (cc h)
fit-Matches (variable k ∷ p) (t ∷ ts) ps h = elim (Option-cases (fit p ts)) [
  | inl missing ↦ absurd (cc (rw missing at h))
  | inr (qs, found) ↦
      let these : (k, t) ∷ qs ≡ ps = cc (rw found at h) in
      subst (Matches (variable k ∷ p) (t ∷ ts)) these (bound (fit-Matches p ts qs found))
]

picked_else : Route → Method → Option Params → Option (Route × Params) → Option (Route × Params)
picked_else r m none rest = rest
picked_else r m (some ps) rest = if method_eq r.method m then some (r, ps) else rest

pub first_fit : Router
first_fit [] m path = none
first_fit (r ∷ rs) m path = picked_else r m (fit r.pattern path) (first_fit rs m path)

-- The route that is picked, for the method and the path.
Picked : List Route → Method → List Text → Route → Params → Type 0
Picked table m path r ps = Memᴰ r table × (r.method ≡ m) × Matches r.pattern path ps

first_fit-Picked :
    (table : List Route) (m : Method) (path : List Text) (r : Route) (ps : Params)
    → first_fit table m path ≡ some (r, ps)
    → Picked table m path r ps
unfolding first_fit picked_else Picked
first_fit-Picked [] m path r ps h = absurd (cc h)
first_fit-Picked (x ∷ xs) m path r ps h = elim (Option-cases (fit x.pattern path)) [
  | inl misses ↦
      let (k, method, fits) = first_fit-Picked xs m path r ps (rw misses at h) in
      (Memᴰ.tail k, method, fits)
  | inr (qs, found) ↦ elim (Bool-cases (method_eq x.method m)) [
    | inl equal ↦
        let h' : some (x, qs) ≡ some (r, ps) = rw (found, equal) at h in
        let route : x ≡ r = cc h' in
        let params : qs ≡ ps = cc h' in
        (
          Memᴰ.head (sym route),
          subst (λ t. t.method ≡ m) route (method_eq_sound x.method m equal),
          subst (λ t. Matches t.pattern path ps) route
              (subst (Matches x.pattern path) params (fit-Matches x.pattern path qs found)),
        )
    | inr differs ↦
        let (k, method, fits) = first_fit-Picked xs m path r ps (rw (found, differs) at h) in
        (Memᴰ.tail k, method, fits)
  ]
]

pub first_fit-PicksMatching : PicksMatching first_fit
unfolding Picked
first_fit-PicksMatching = record {
  listed = λ table m path r ps h. (first_fit-Picked table m path r ps h).0;
  fits = λ table m path r ps h.
      let (_, method, fits) = first_fit-Picked table m path r ps h in (method, fits);
}

-- A request that would publish the first version, with a token that is not the expected one.
pub intrusion : Request
intrusion = record {
  method = post;
  path = codes "api" ∷ codes "v1" ∷ codes "contents" ∷ page ∷ codes "publish" ∷ [];
  authorization = codes "Bearer guess";
  if_match = [];
  if_none_match = [];
  x_actor = [];
  limit = [];
  offset = [];
  create_body = err not_one_object;
  update_body = err not_one_object;
  publish_body = ok 1;
  schedule_body = err not_one_object;
}

pub server : Server
server = record {
  admin_token = codes "secret";
  base = codes "http://x";
  now = 50;
  fresh = codes "new";
  conn = healthy;
  ping = true;
  meanwhile = λ db. db;
  format_millis = λ ms. codes "2026";
  w3c_datetime = λ ms. codes "2026";
  parse_time = λ s. none;
  rendering = record {
    rfc3339 = λ ms. codes "2026";
    human_date = λ ms. codes "2026";
    marshal = λ a. none;
    execute = λ p. some p.title;
  };
}

no_token_no_write_example :
    (serve first_fit server intrusion (run opening empty)).1 ≡ run opening empty
unfolding server intrusion admits cut_prefix trim_space text_dec
no_token_no_write_example =
    no_token_no_write first_fit server intrusion (run opening empty) first_fit-PicksMatching refl

admin_needs_token_example :
    serve first_fit server intrusion (run opening empty) ≡ (unauthorized, run opening empty)
unfolding server intrusion admits cut_prefix trim_space text_dec
admin_needs_token_example =
    admin_needs_token first_fit server intrusion (codes "contents" ∷ page ∷ codes "publish" ∷ [])
      (run opening empty) first_fit-PicksMatching refl refl

admits_iff_example : (admits (codes "secret") (codes "Bearer  secret") ≡ true) ↔ (
    (token : Text) × (codes "Bearer  secret" ≡ codes "Bearer " ++ token)
    × (trim_space token ≡ codes "secret"))
admits_iff_example = admits_iff (codes "secret") (codes "Bearer  secret")

-- The same with the token.
pub admission : Request
unfolding intrusion
admission = record intrusion { authorization = codes "Bearer secret" }
