-- ===== src/Store/Open/Pools.antt =====
-- Which pools are open after what is done to them.
use qdt_test.Common.{
  Text, text_eq, ◌≡◌, refl, ◌∙◌, Bool, true, false, not, ◌&&◌, ◌||◌, List, [], ◌∷◌, ◌++◌, Result,
  ok, err, Bool-cases, inl, inr, codes,
}
use qdt_test.Store.Open.{
  Pool, reader, writer, PoolAction, made_dir, opened, limited, pinged, closed, ◌▸◌, Driver,
  OpenError, DbHandle, both_pools, close_pool, close_db, ping_pools, open_reader, open_writer,
  make_parent, open_db, path_dir, readers, base_dsn, write_dsn,
}

abbrev pub same_pool : Pool → Pool → Bool
same_pool reader reader = true
same_pool writer writer = true
same_pool _ _ = false

-- What one action leaves of a pool.
abbrev pub still_open : Pool → Bool → PoolAction → Bool
still_open p o (opened q _) = o || same_pool p q
still_open p o (closed q) = o && not (same_pool p q)
still_open p o (made_dir _) = o
still_open p o (limited _ _ _) = o
still_open p o (pinged _) = o

abbrev pub open_after : Pool → Bool → List PoolAction → Bool
open_after p o [] = o
open_after p o (a ∷ log) = open_after p (still_open p o a) log

-- What `Open` leaves of the pools, given which are open before: both where it answers the handle, and
-- none where it fails.
abbrev SettledFrom : (Pool → Bool) → Text → Result OpenError DbHandle × List PoolAction → Type 0
SettledFrom start path (ok h, log) =
    (h ≡ both_pools path) × ((p : Pool) → open_after p (start p) log ≡ true)
SettledFrom start path (err e, log) = (p : Pool) → open_after p (start p) log ≡ false

abbrev pub Settled : Text → Result OpenError DbHandle × List PoolAction → Type 0
Settled path r = SettledFrom (λ p. false) path r

by_pool : (P : Pool → Type 0) → P reader → P writer → (p : Pool) → P p
by_pool P r w reader = r
by_pool P r w writer = w

pub open_after-append :
    (p : Pool) (o : Bool) (log more : List PoolAction)
    → open_after p o (log ++ more) ≡ open_after p (open_after p o log) more
open_after-append p o [] more = refl
open_after-append p o (a ∷ log) more = open_after-append p (still_open p o a) log more

Settled-after :
    (start : Pool → Bool) (path : Text) (log : List PoolAction)
    (r : Result OpenError DbHandle × List PoolAction)
    → SettledFrom (λ p. open_after p (start p) log) path r
    → SettledFrom start path (log ▸ r)
Settled-after start path log (ok h, more) (same, up) =
    (same, λ p. open_after-append p (start p) log more ∙ up p)
Settled-after start path log (err e, more) down =
    λ p. open_after-append p (start p) log more ∙ down p

SettledFrom-same :
    (start before : Pool → Bool) (path : Text) (r : Result OpenError DbHandle × List PoolAction)
    → ((p : Pool) → before p ≡ start p)
    → SettledFrom start path r
    → SettledFrom before path r
SettledFrom-same start before path (ok h, log) e (same, up) = (same, λ p. rw (e p) (up p))
SettledFrom-same start before path (err x, log) e down = λ p. rw (e p) (down p)

module _ (d : Driver) (path : Text) where
  pub close_db-closes : (p : Pool) → open_after p true (close_db d (both_pools path)).1 ≡ false
  unfolding close_db close_pool
  close_db-closes reader = refl
  close_db-closes writer = refl

  ping_pools-Settled : SettledFrom (λ p. true) path (ping_pools d path)
  unfolding ping_pools close_db close_pool
  ping_pools-Settled = elim (Bool-cases (d.ping_fails writer)) [
    | inl lost ↦ rw lost (by_pool _ refl refl)
    | inr up ↦ elim (Bool-cases (d.ping_fails reader)) [
      | inl lost ↦ rw (up, lost) (by_pool _ refl refl)
      | inr also ↦ rw (up, also) (refl, by_pool _ refl refl)
    ]
  ]

  open_reader-Settled : SettledFrom (same_pool writer) path (open_reader d path)
  unfolding open_reader
  open_reader-Settled = elim (Bool-cases (d.open_fails reader)) [
    | inl lost ↦ rw lost (by_pool _ refl refl)
    | inr up ↦ rw up (
        Settled-after (same_pool writer) path
          (opened reader (base_dsn path) ∷ limited reader (readers d) (readers d) ∷ [])
          (ping_pools d path)
          (SettledFrom-same (λ p. true) _ path (ping_pools d path) (by_pool _ refl refl)
            ping_pools-Settled))
  ]

  open_writer-Settled : Settled path (open_writer d path)
  unfolding open_writer
  open_writer-Settled = elim (Bool-cases (d.open_fails writer)) [
    | inl lost ↦ rw lost (by_pool _ refl refl)
    | inr up ↦ rw up (
        Settled-after (λ p. false) path (opened writer (write_dsn path) ∷ limited writer 1 1 ∷ [])
          (open_reader d path)
          (SettledFrom-same (same_pool writer) _ path (open_reader d path) (by_pool _ refl refl)
            open_reader-Settled))
  ]

  make_parent-Settled : (dir : Text) → Settled path (make_parent d path dir)
  unfolding make_parent
  make_parent-Settled dir =
      elim (Bool-cases (not (text_eq dir []) && not (text_eq dir (codes ".")))) [
        | inr here ↦ rw here open_writer-Settled
        | inl there ↦ elim (Bool-cases d.mkdir_fails) [
          | inl lost ↦ rw (there, lost) (λ p. refl)
          | inr made ↦
              rw (there, made)
                (Settled-after (λ p. false) path (made_dir dir ∷ []) (open_writer d path)
                  open_writer-Settled)
        ]
      ]

  -- Every path of `Open` leaves either both pools open, in the handle that it answers, or none: a
  -- failure of any step closes each pool that was opened before it.
  pub open_db-Settled : Settled path (open_db d path)
  unfolding open_db
  open_db-Settled = make_parent-Settled (path_dir path)
