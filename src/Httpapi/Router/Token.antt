-- ===== src/Httpapi/Router/Token.antt =====
-- What a request can do without the admin token.
use qdt_test.Common.{
  Text, codes, text_eq, text_eq_refl, text_dec, ◌≡◌, refl, inl, inr, none, some, Bool, true, false,
  not, ◌&&◌, ◌||◌, List, [], ◌∷◌, arith, Bool-cases, Option-cases,
}
use mathlib.Core.List.{Memᴰ}
use qdt_test.Store.Model.{Db}
use qdt_test.Httpapi.Auth.{admits}
use qdt_test.Httpapi.Routes.{
  Method, Segment, word, variable, Handler, health, public_list, public_get, sitemap, robots,
  html_page, Route, Params, Matches, end, same, bound, routes,
}
use qdt_test.Httpapi.Router.{
  Server, Request, unauthorized, handle, is_admin_path, run_route, Router, serve,
}

-- What chi documents of the route that it picks: it is one of the table, for the method, and its
-- pattern fits the path.
pub record PicksMatching (router : Router) : Type 0 where
  pub listed :
      (table : List Route) (m : Method) (path : List Text) (r : Route) (ps : Params)
      → router table m path ≡ some (r, ps)
      → Memᴰ r table
  pub fits :
      (table : List Route) (m : Method) (path : List Text) (r : Route) (ps : Params)
      → router table m path ≡ some (r, ps)
      → (r.method ≡ m) × Matches r.pattern path ps

all_routes : (Route → Bool) → List Route → Bool
all_routes p [] = true
all_routes p (r ∷ rs) = p r && all_routes p rs

all_routes-in :
    (p : Route → Bool) (rs : List Route) (r : Route)
    → all_routes p rs ≡ true
    → Memᴰ r rs
    → p r ≡ true
unfolding all_routes
all_routes-in p [] r h m = elim m [ ]
all_routes-in p (x ∷ rs) r h (Memᴰ.head e) = rw e (ground arith)
all_routes-in p (x ∷ rs) r h (Memᴰ.tail m) = all_routes-in p rs r (ground arith) m

-- The handlers of the routes outside the admin group.
abbrev is_open : Handler → Bool
is_open health = true
is_open public_list = true
is_open public_get = true
is_open sitemap = true
is_open robots = true
is_open html_page = true
is_open _ = false

open_writes_nothing :
    (s : Server) (q : Request) (ps : Params) (h : Handler) (db : Db)
    → is_open h ≡ true
    → (handle s q ps h db).1 ≡ db
unfolding handle
open_writes_nothing s q ps health db e = refl
open_writes_nothing s q ps public_list db e = refl
open_writes_nothing s q ps public_get db e = refl
open_writes_nothing s q ps sitemap db e = refl
open_writes_nothing s q ps robots db e = refl
open_writes_nothing s q ps html_page db e = refl
open_writes_nothing s q ps _ db e = cc

guarded_or_open : all_routes (λ r. r.guarded || is_open r.handler) routes ≡ true
unfolding all_routes
guarded_or_open = refl

-- A pattern that may fit a path below /api/v1.
abbrev may_fit : List Segment → Bool
may_fit (word a ∷ word b ∷ p) = text_eq a (codes "api") && text_eq b (codes "v1")
may_fit (word a ∷ variable k ∷ p) = true
may_fit (variable k ∷ x ∷ p) = true
may_fit (x ∷ []) = false
may_fit [] = false

Matches-may_fit :
    {p : List Segment} {path : List Text} {ps : Params} (rest : List Text)
    → Matches p path ps
    → path ≡ codes "api" ∷ codes "v1" ∷ rest
    → may_fit p ≡ true
Matches-may_fit rest end e = absurd (cc e)
Matches-may_fit rest (same end) e = absurd (cc e)
Matches-may_fit rest (same {t} (same {t = u} m)) e =
    let first : t ≡ codes "api" = cc e in
    let second : u ≡ codes "v1" = cc e in
    rw (first, second, text_eq_refl (codes "api"), text_eq_refl (codes "v1")) refl
Matches-may_fit rest (same (bound m)) e = refl
Matches-may_fit rest (bound end) e = absurd (cc e)
Matches-may_fit rest (bound (same m)) e = refl
Matches-may_fit rest (bound (bound m)) e = refl

guarded_below : all_routes (λ r. r.guarded || not (may_fit r.pattern)) routes ≡ true
unfolding all_routes text_dec
guarded_below = refl

-- What the middleware does to a request without the token.
run_route-refused :
    (s : Server) (q : Request) (r : Route) (ps : Params) (db : Db)
    → admits s.admin_token q.authorization ≡ false
    → r.guarded ≡ true
    → run_route s q (some (r, ps)) db ≡ (unauthorized, db)
unfolding run_route
run_route-refused s q r ps db refused guarded = rw (guarded, refused) refl

run_route-writes_nothing :
    (s : Server) (q : Request) (r : Route) (ps : Params) (db : Db)
    → admits s.admin_token q.authorization ≡ false
    → (r.guarded || is_open r.handler) ≡ true
    → (run_route s q (some (r, ps)) db).1 ≡ db
unfolding run_route
run_route-writes_nothing s q r ps db refused either = elim (Bool-cases r.guarded) [
  | inl guarded ↦ rw (guarded, refused) refl
  | inr free ↦ rw free (open_writes_nothing s q ps r.handler db (rw free at either))
]

unrouted_writes_nothing : (s : Server) (q : Request) (db : Db) → (run_route s q none db).1 ≡ db
unfolding run_route
unrouted_writes_nothing s q db =
    elim (Bool-cases (is_admin_path q.path && not (admits s.admin_token q.authorization))) [
      | inl refused ↦ rw refused refl
      | inr passed ↦ rw passed refl
    ]

unrouted_refused :
    (s : Server) (q : Request) (rest : List Text) (db : Db)
    → q.path ≡ codes "api" ∷ codes "v1" ∷ rest
    → admits s.admin_token q.authorization ≡ false
    → run_route s q none db ≡ (unauthorized, db)
unfolding run_route
unrouted_refused s q rest db below refused =
    rw (below, text_eq_refl (codes "api"), text_eq_refl (codes "v1"), refused) refl

-- Without the admin token no request writes: whatever its method, path, headers and body, the
-- database is afterwards what it was, where the router picks routes of the table that fit.
pub no_token_no_write :
    (router : Router) (s : Server) (q : Request) (db : Db)
    → PicksMatching router
    → admits s.admin_token q.authorization ≡ false
    → (serve router s q db).1 ≡ db
unfolding serve run_route
no_token_no_write router s q db picks refused =
    elim (Option-cases (router routes q.method q.path)) [
      | inl none_found ↦ rw none_found (unrouted_writes_nothing s q db)
      | inr ((r, ps), found) ↦ rw found (
          run_route-writes_nothing s q r ps db refused (
            all_routes-in _ routes r guarded_or_open
              (picks.listed routes q.method q.path r ps found)))
    ]

-- Every path below /api/v1 asks for the token: without it the answer is 401, whether or not there is a
-- route for the request, and nothing is written, where the router picks routes of the table that fit.
pub admin_needs_token :
    (router : Router) (s : Server) (q : Request) (rest : List Text) (db : Db)
    → PicksMatching router
    → q.path ≡ codes "api" ∷ codes "v1" ∷ rest
    → admits s.admin_token q.authorization ≡ false
    → serve router s q db ≡ (unauthorized, db)
unfolding serve
admin_needs_token router s q rest db picks below refused =
    elim (Option-cases (router routes q.method q.path)) [
      | inl none_found ↦ rw none_found (unrouted_refused s q rest db below refused)
      | inr ((r, ps), found) ↦
          let (_, fit) = picks.fits routes q.method q.path r ps found in
          let may = Matches-may_fit rest fit below in
          let guarded =
            all_routes-in (λ x. x.guarded || not (may_fit x.pattern)) routes r guarded_below
              (picks.listed routes q.method q.path r ps found) in
          let token : r.guarded ≡ true = ground (arith, may, guarded) in
          rw found (run_route-refused s q r ps db refused token)
    ]
