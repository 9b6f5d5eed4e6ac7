-- ===== src/System.antt =====
-- The processes that share one database file, the servers and the workers of cmd/server, as one
-- sequence of what each of them does to the tables.
pub mod Keeps
pub mod Kept
pub mod Refines
use qdt_test.Common.{ℕ}
use qdt_test.Store.Model.{Db}
use qdt_test.Httpapi.Router.{Server, Request, Router, serve}
use qdt_test.Scheduler.Worker.{World, Worker, shutdown}
use qdt_test.Scheduler.Worker.Among.{tick_among}

-- A request carries what others do between its read and its transaction: an update that takes the
-- version it finds, a publish and a schedule have both, and in any other request there is no such time.
-- A poll carries what others do before each of its transactions after the first. A poll and a stop may be any worker's.
mutual
  pub data Turn : Type 0 where
    request : (router : Router) (s : Server) (q : Request) (during : Turns) → Turn
    poll : (w : World) (worker : Worker) (between : ℕ → Turns) → Turn
    stop : (w : World) (worker : Worker) → Turn

  pub data Turns : Type 0 where
    none : Turns
    then : (e : Turn) (rest : Turns) → Turns

unfoldable mutual
  unfolding serve tick_among shutdown

  pub run_turn : Turn → Db → Db
  run_turn (request router s q during) db =
      (serve router (record s { meanwhile = λ b. run_turns during b }) q db).1
  run_turn (poll w worker between) db = tick_among (λ k b. run_turns (between k) b) w 0 worker db
  run_turn (stop w worker) db = shutdown w 0 worker db

  pub run_turns : Turns → Db → Db
  run_turns none db = db
  run_turns (then e rest) db = run_turns rest (run_turn e db)
