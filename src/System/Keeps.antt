-- ===== src/System/Keeps.antt =====
-- Every process together over the tables of the store.
use qdt_test.Store.Model.{Db}
use qdt_test.Store.History.Honest.{Steady}
use qdt_test.Store.History.Integrity.{Integrity, step-Integrity}
use qdt_test.Httpapi.Router.Keeps.{serve-keeps}
use qdt_test.Scheduler.Worker.Keeps.{tick_among-keeps, shutdown-keeps}
use qdt_test.System.{Turn, Turns, request, poll, stop, none, then, run_turn, run_turns}

mutual
  unfolding run_turns run_turn

  run_turn-keeps :
      (e : Turn) (P : Db → Type 0) (steady : Steady P) (db : Db) → P db → P (run_turn e db)
  run_turn-keeps (request router s q during) P steady db v =
      serve-keeps P steady (record s { meanwhile = λ b. run_turns during b }) q db v
        (run_turns-keeps during P steady db v) router
  run_turn-keeps (poll w worker between) P steady db v =
      tick_among-keeps (λ k b. run_turns (between k) b)
        (λ Q still k b. run_turns-keeps (between k) Q still b) w P steady 0 worker db v
  run_turn-keeps (stop w worker) P steady db v = shutdown-keeps P steady w 0 worker db v

  pub run_turns-keeps :
      (es : Turns) (P : Db → Type 0) (steady : Steady P) (db : Db) → P db → P (run_turns es db)
  run_turns-keeps none P steady db v = v
  run_turns-keeps (then e rest) P steady db v =
      run_turns-keeps rest P steady (run_turn e db) (run_turn-keeps e P steady db v)

-- Whatever any number of servers and workers do to one database, in any order, with the
-- transactions of one between those of another and whichever of them fail, the four tables keep
-- their integrity.
pub run_turns-Integrity : (es : Turns) (db : Db) → Integrity db → Integrity (run_turns es db)
run_turns-Integrity es db v = run_turns-keeps es Integrity step-Integrity db v
