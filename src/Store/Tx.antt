-- ===== src/Store/Tx.antt =====
-- internal/store/tx.go: the write transaction, over the outcomes of the driver's BEGIN and COMMIT.
pub mod Rules
pub mod Panics
use qdt_test.Common.{String, Bool, true, false, Result, ok, err, if◌then◌else◌}
use qdt_test.Store.Model.{Db, Error, wrapped, begin_failed, commit_failed, SqlError}
use qdt_test.Store.Model.{unique, primary_key, foreign_key}

-- How the driver answers BEGIN and COMMIT in one transaction.
pub record Conn : Type 0 where
  pub begin_fails : Bool
  pub commit_fails : Bool

abbrev pub healthy : Conn
healthy = record { begin_fails = false; commit_fails = false }

-- A body's writes are kept only by the commit.
commit : {A : Type 0} → Conn → Db → Result Error (A × Db) → Result Error A × Db
commit conn db (err e) = (err e, db)
commit conn db (ok (a, after)) =
    if conn.commit_fails then (err commit_failed, db) else (ok a, after)

unfoldable pub tx : {A : Type 0} → Conn → (Db → Result Error (A × Db)) → Db → Result Error A × Db
unfolding commit
tx conn body db = if conn.begin_fails then (err begin_failed, db) else commit conn db (body db)

unfoldable pub is_unique_violation : SqlError → Bool
is_unique_violation unique = true
is_unique_violation primary_key = true
is_unique_violation foreign_key = false

-- `if IsUniqueViolation(err) { return sentinel }`, and the error under its context otherwise.
unfoldable pub unless_unique : Error → String → SqlError → Error
unfolding is_unique_violation
unless_unique sentinel context e = if is_unique_violation e then sentinel else wrapped context e
