-- ===== src/Store/Tx/Panics.antt =====
-- internal/store/tx.go where the body may panic, statement by statement over the one connection of the
-- write pool. A body leaves the tables as its statements left them within the transaction, whether it
-- returns or panics.
use qdt_test.Common.{
  Bool, true, false, if◌then◌else◌, ◌≡◌, refl, inl, inr, List, [], ◌∷◌, Result, ok, err, Bool-cases,
}
use qdt_test.Store.Model.{Db, Error, begin_failed, commit_failed}
use qdt_test.Store.Tx.{Conn, tx, commit}

-- `http.ErrAbortHandler`, or any other value.
pub data Panic : Type 0 where
  abort_handler another_panic : Panic

pub data Halt (A : Type 0) : Type 0 where
  returned : Result Error A → Halt A
  panicked : Panic → Halt A

-- The connection: with no transaction, or with one over the stored tables. Where a transaction was
-- left open the pool has no connection to give, and a BEGIN waits for ever.
pub data Link : Type 0 where
  idle : (stored : Db) → Link
  inside : (stored tables : Db) → Link
  wedged : Link

-- `tx.Rollback`, which does nothing once the transaction is over.
unfoldable pub rollback : Link → Link
rollback (idle stored) = idle stored
rollback (inside stored tables) = idle stored
rollback wedged = wedged

-- `tx.Commit`: the transaction is over, and its tables are kept unless that fails.
unfoldable pub commit_link : Conn → Link → Bool × Link
commit_link conn (inside stored tables) =
    if conn.commit_fails then (false, idle stored) else (true, idle tables)
commit_link conn (idle stored) = (false, idle stored)
commit_link conn wedged = (false, wedged)

-- The deferred function, after the value of `committed`.
unfoldable pub deferred : Bool → Link → Link
unfolding rollback
deferred committed link = if committed then link else rollback link

-- From the body on: its end, `committed`, and the connection that the deferred function finds.
unfoldable pub after_body : {A : Type 0} → Conn → Db → Halt A × Db → Halt A × Bool × Link
unfolding commit_link
after_body conn stored (panicked p, tables) = (panicked p, false, inside stored tables)
after_body conn stored (returned (err e), tables) = (returned (err e), false, inside stored tables)
after_body conn stored (returned (ok a), tables) =
    let (committed, link) = commit_link conn (inside stored tables) in
    (if committed then returned (ok a) else returned (err commit_failed), committed, link)

abbrev unwind : {A : Type 0} → Halt A × Bool × Link → Halt A × Link
unfolding deferred
unwind (h, committed, link) = (h, deferred committed link)

-- `Tx`. A connection that is not free answers nothing, which is written as a failed BEGIN.
unfoldable pub run_tx : {A : Type 0} → Conn → (Db → Halt A × Db) → Link → Halt A × Link
unfolding unwind after_body
run_tx conn body (idle stored) =
    if conn.begin_fails
    then (returned (err begin_failed), idle stored)
    else unwind (after_body conn stored (body stored))
run_tx conn body (inside stored tables) = (returned (err begin_failed), wedged)
run_tx conn body wedged = (returned (err begin_failed), wedged)

-- `ReadTx`: a transaction that may not write, and is always rolled back.
unfoldable pub read_tx : {A : Type 0} → Conn → (Db → Halt A × Db) → Db → Halt A × Db
read_tx conn body db =
    if conn.begin_fails then (returned (err begin_failed), db) else ((body db).0, db)

-- One transaction after another.
unfoldable pub run_txs :
    {A : Type 0} → List (Conn × (Db → Halt A × Db)) → Link → List (Halt A) × Link
unfolding run_tx
run_txs [] link = ([], link)
run_txs ((conn, body) ∷ rest) link =
    let (h, after) = run_tx conn body link in let (hs, last) = run_txs rest after in (h ∷ hs, last)

-- What a transaction is to do: as `tx` does where the body returns, and nothing where it panics.
abbrev pub with_tables : {A : Type 0} → Result Error A → Db → Result Error (A × Db)
with_tables (ok a) tables = ok (a, tables)
with_tables (err e) tables = err e

abbrev as_returned : {A : Type 0} → Result Error A × Db → Halt A × Db
as_returned (r, db) = (returned r, db)

unfoldable pub settled : {A : Type 0} → Conn → Db → Halt A × Db → Halt A × Db
settled conn db (returned r, tables) = as_returned (tx conn (λ d. with_tables r tables) db)
settled conn db (panicked p, tables) =
    if conn.begin_fails then (returned (err begin_failed), db) else (panicked p, db)

unfoldable pub settled_all :
    {A : Type 0} → List (Conn × (Db → Halt A × Db)) → Db → List (Halt A) × Db
unfolding settled
settled_all [] db = ([], db)
settled_all ((conn, body) ∷ rest) db =
    let (h, after) = settled conn db (body db) in
    let (hs, last) = settled_all rest after in (h ∷ hs, last)

abbrev pub at_rest : {A : Type 0} → A × Db → A × Link
at_rest (a, db) = (a, idle db)

module _ {A : Type 0} (conn : Conn) (db : Db) where
  unwind-settled :
      (b : Halt A × Db)
      → (if conn.begin_fails
          then (returned (err begin_failed), idle db)
          else unwind (after_body conn db b))
        ≡ at_rest (settled conn db b)
  unfolding unwind after_body deferred rollback commit_link settled tx commit
  unwind-settled (panicked p, tables) = elim (Bool-cases conn.begin_fails) [
    | inl refused ↦ rw refused refl
    | inr begun ↦ rw begun refl
  ]
  unwind-settled (returned (err e), tables) = elim (Bool-cases conn.begin_fails) [
    | inl refused ↦ rw refused refl
    | inr begun ↦ rw begun refl
  ]
  unwind-settled (returned (ok a), tables) = elim (Bool-cases conn.begin_fails) [
    | inl refused ↦ rw refused refl
    | inr begun ↦ elim (Bool-cases conn.commit_fails) [
      | inl lost ↦ rw (begun, lost) refl
      | inr kept ↦ rw (begun, kept) refl
    ]
  ]

  pub run_tx-settled :
      (body : Db → Halt A × Db) → run_tx conn body (idle db) ≡ at_rest (settled conn db (body db))
  unfolding run_tx
  run_tx-settled body = unwind-settled (body db)

-- Whatever transactions run one after another, each with any writes, errors and panics in its body and
-- any failure of its BEGIN or its COMMIT, every one of them finds the connection free and leaves it
-- free; the answers and the stored tables are those of `tx` for the bodies that return, and a body that
-- panics passes its panic on and leaves nothing of what it wrote.
pub run_txs-settled :
    {A : Type 0} (txs : List (Conn × (Db → Halt A × Db))) (db : Db)
    → run_txs txs (idle db) ≡ at_rest (settled_all txs db)
unfolding run_txs settled_all
run_txs-settled [] db = refl
run_txs-settled ((conn, body) ∷ rest) db =
    rw (run_tx-settled conn db body, run_txs-settled rest (settled conn db (body db)).1) refl
