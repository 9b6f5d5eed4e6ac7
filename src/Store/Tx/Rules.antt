-- ===== src/Store/Tx/Rules.antt =====
-- What `Tx` promises its callers.
use qdt_test.Common.{false, ◌≡◌, refl, ap, ◌∙◌, ◌⊎◌, inl, inr, Result, ok, err, Bool-cases}
use qdt_test.Store.Model.{Db, Error, begin_failed, commit_failed}
use qdt_test.Store.Tx.{Conn, tx, commit}

-- Either the body's writes are kept and its value is returned, or an error is and nothing is written.
abbrev pub Outcome : {A : Type 0} → Db → Result Error (A × Db) → Result Error A × Db → Type 0
Outcome {A} db r out =
    ((a : A) × (after : Db) × (r ≡ ok (a, after)) × (out ≡ (ok a, after)))
    ⊎ ((e : Error) × (out ≡ (err e, db)))

commit-Outcome :
    {A : Type 0} (conn : Conn) (db : Db) (r : Result Error (A × Db))
    → Outcome db r (commit conn db r)
unfolding commit
commit-Outcome conn db (err e) = inr (e, refl)
commit-Outcome conn db (ok (a, after)) = elim (Bool-cases conn.commit_fails) [
  | inl lost ↦ inr (commit_failed, rw lost)
  | inr kept ↦ inl (a, after, refl, rw kept)
]

module _ {A : Type 0} (conn : Conn) (body : Db → Result Error (A × Db)) (db : Db) where
  pub tx-Outcome : Outcome db (body db) (tx conn body db)
  unfolding tx
  tx-Outcome = elim (Bool-cases conn.begin_fails) [
    | inl refused ↦ inr (begin_failed, rw refused)
    | inr begun ↦ rw begun (commit-Outcome conn db (body db))
  ]

  -- What the body keeps wherever it succeeds, the transaction keeps.
  pub tx-keeps :
      (P : Db → Type 0)
      → P db
      → ((a : A) (after : Db) → body db ≡ ok (a, after) → P after)
      → P (tx conn body db).1
  tx-keeps P before keep = elim tx-Outcome [
    | inl (a, after, run, e) ↦ rw e (keep a after run)
    | inr (_, e) ↦ rw e before
  ]

  -- An error leaves the database as it was.
  pub tx-err : (e : Error) → (tx conn body db).0 ≡ err e → (tx conn body db).1 ≡ db
  tx-err e failed = elim tx-Outcome [
    | inl (a, after, run, out) ↦ absurd (cc (failed, out))
    | inr (_, out) ↦ cc out
  ]

  pub tx-ok :
      (a : A) (after : Db)
      → conn.begin_fails ≡ false
      → conn.commit_fails ≡ false
      → body db ≡ ok (a, after)
      → tx conn body db ≡ (ok a, after)
  unfolding tx commit
  tx-ok a after begun kept run = rw (begun, run, kept)

  pub tx-refused :
      (e : Error) → conn.begin_fails ≡ false → body db ≡ err e → tx conn body db ≡ (err e, db)
  unfolding tx commit
  tx-refused e begun failed = rw (begun, failed)

  -- An answer without error is the body's.
  pub tx-run : (a : A) (after : Db) → tx conn body db ≡ (ok a, after) → body db ≡ ok (a, after)
  tx-run a after done = elim tx-Outcome [
    | inl (b, kept, run, out) ↦ run ∙ ap ok (cc (out, done))
    | inr (_, out) ↦ absurd (cc (out, done))
  ]
