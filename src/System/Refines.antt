-- ===== src/System/Refines.antt =====
-- All processes together as a history of the store.
use qdt_test.Common.{◌≡◌, refl, List, [], ◌∷◌, ◌++◌}
use qdt_test.Store.Model.{Db}
use qdt_test.Store.Tx.{Conn}
use qdt_test.Store.History.{Call, step, run}
use qdt_test.Store.History.Integrity.{IsHonest, IsHonestRun}
use qdt_test.System.{Turns, run_turns}
use qdt_test.System.Keeps.{run_turns-keeps}

-- A history from one database to another, in which every completed job is its schedule's.
pub record History (before after : Db) : Type 0 where
  pub calls : List (Conn × Call)
  pub honest : IsHonestRun calls before
  pub result : after ≡ run calls before

run-append :
    (cs : List (Conn × Call)) (conn : Conn) (c : Call) (db : Db)
    → run (cs ++ (conn, c) ∷ []) db ≡ step conn c (run cs db)
unfolding run
run-append [] conn c db = refl
run-append ((k, x) ∷ cs) conn c db = run-append cs conn c (step k x db)

append-IsHonestRun :
    (cs : List (Conn × Call)) (conn : Conn) (c : Call) (db : Db)
    → IsHonestRun cs db
    → IsHonest c (run cs db)
    → IsHonestRun (cs ++ (conn, c) ∷ []) db
unfolding run
append-IsHonestRun [] conn c db hs h = (h, tt)
append-IsHonestRun ((k, x) ∷ cs) conn c db (own, hs) h =
    (own, append-IsHonestRun cs conn c (step k x db) hs h)

-- One call more.
extended :
    (before : Db) (conn : Conn) (c : Call) (db : Db)
    → IsHonest c db
    → History before db
    → History before (step conn c db)
extended before conn c db h past = record {
  calls = past.calls ++ (conn, c) ∷ [];
  honest = append-IsHonestRun past.calls conn c before past.honest (rw past.result at h);
  result = rw (past.result, run-append past.calls conn c before) refl;
}

-- Whatever servers and workers do to a database, interleaved between their transactions, is a history
-- of store calls, in which every completed job is its schedule's.
pub run_turns-History : (ts : Turns) (db : Db) → History db (run_turns ts db)
unfolding run
run_turns-History ts db =
    run_turns-keeps ts (History db) (extended db) db
      (record { calls = []; honest = tt; result = refl })
