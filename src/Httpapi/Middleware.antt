-- ===== src/Httpapi/Middleware.antt =====
-- internal/httpapi/middleware.go: the recovery and the request log, around a handler that may panic.
use qdt_test.Common.{◌≡◌, refl, ℕ, Option, none, some, List, [], ◌∷◌, ◌++◌, Result}
use qdt_test.Store.Model.{Db, Error}
use qdt_test.Store.Tx.{Conn}
use qdt_test.Store.Tx.Panics.{
  Panic, abort_handler, another_panic, Halt, returned, panicked, Link, idle, run_tx, settled,
  run_tx-settled,
}
use qdt_test.Httpapi.Reply.{Reply, sent, not_modified, failed, write_internal}

-- How a handler ends: with its reply, or in a panic, after the reply that it may have begun.
pub data Ending (A : Type 0) : Type 0 where
  replied : Reply A → Ending A
  panics : Panic → (begun : Option (Reply A)) → Ending A

-- What is logged: a line for a request with its status, and one for a panic.
pub data Line : Type 0 where
  request_line : (status : ℕ) → Line
  panic_line : Line

unfoldable pub status_of : {A : Type 0} → Reply A → ℕ
status_of (sent status etag location a) = status
status_of (not_modified etag) = 304
status_of (failed status detail) = status

-- The line comes after the handler, and a panic passes it by.
unfoldable pub request_logger : {A : Type 0} → Ending A → Ending A × List Line
unfolding status_of
request_logger (replied r) = (replied r, request_line (status_of r) ∷ [])
request_logger (panics p begun) = (panics p begun, [])

-- The reply of the recovery; a reply that has begun keeps its status and headers.
unfoldable pub recoverer : {A : Type 0} → Ending A × List Line → Ending A × List Line
unfolding write_internal
recoverer (replied r, lines) = (replied r, lines)
recoverer (panics abort_handler begun, lines) = (panics abort_handler begun, lines)
recoverer (panics another_panic none, lines) = (replied write_internal, lines ++ panic_line ∷ [])
recoverer (panics another_panic (some r), lines) = (replied r, lines ++ panic_line ∷ [])

-- The handlers are wrapped in the log, and that in the recovery.
unfoldable pub middleware : {A : Type 0} → Ending A → Ending A × List Line
unfolding request_logger recoverer
middleware e = recoverer (request_logger e)

-- A handler whose one transaction may panic, before any reply is begun.
unfoldable pub reply_to : {A B : Type 0} → (Result Error A → Reply B) → Halt A → Ending B
reply_to reply (returned r) = replied (reply r)
reply_to reply (panicked p) = panics p none

unfoldable pub served_tx :
    {A B : Type 0}
    → Conn
    → (Db → Halt A × Db)
    → (Result Error A → Reply B)
    → Link
    → (Ending B × List Line) × Link
unfolding middleware reply_to
served_tx conn body reply link =
    let r = run_tx conn body link in (middleware (reply_to reply r.0), r.1)

-- A request leaves the connection free, whether its transaction returns or panics.
pub served_tx-settled :
    {A B : Type 0} (conn : Conn) (body : Db → Halt A × Db) (reply : Result Error A → Reply B)
    (db : Db)
    → served_tx conn body reply (idle db) ≡ (
      middleware (reply_to reply (settled conn db (body db)).0),
      idle (settled conn db (body db)).1,
    )
unfolding served_tx
served_tx-settled conn body reply db = rw (run_tx-settled conn db body) refl
