-- ===== src/Scheduler/Worker/Shutdown.antt =====
-- What a worker leaves behind when it stops.
use qdt_test.Common.{
  ℕ, Text, ◌≡◌, ◌≢◌, refl, false, some, List, [], ◌∷◌, ◌++◌, map, inl, inr, Bool-cases,
  of_in-update, update, text_eq_refl,
}
use mathlib.Core.List.{Memᴰ}
use qdt_test.Store.Model.{Db, Schedule, claimed, pending}
use qdt_test.Store.Tx.{healthy, tx}
use qdt_test.Store.Schedules.{held_by, unlocked, release_claims}
use qdt_test.Scheduler.Worker.{World, Worker, ticker, done, tick, shutdown, run}

released_row :
    (worker : Text) (now : ℕ) (rows : List Schedule) (s : Schedule)
    → Memᴰ s (update (held_by worker) (unlocked pending now) rows)
    → held_by worker s ≡ false
released_row worker now rows s m =
    let (t, _, e) = of_in-update (held_by worker) (unlocked pending now) rows m in
    elim (Bool-cases (held_by worker t)) [
      | inl hit ↦ rw (e, hit) refl
      | inr miss ↦ rw (e, miss) miss
    ]

released :
    (worker : Text) (now : ℕ) (db : Db) (s : Schedule)
    → Memᴰ s (release_claims healthy worker now db).1.publish_schedules
    → held_by worker s ≡ false
unfolding release_claims tx
released worker now db s m = released_row worker now db.publish_schedules s m

-- After any number of polls and then the signal to stop, whatever the polls met, no schedule is
-- claimed and locked by the worker, provided that the last transaction goes through.
pub stopped_holds_nothing :
    (worker : Worker) (polls : List World) (w : World) (db : Db) (s : Schedule)
    → w.conn 0 ≡ healthy
    → Memᴰ s (run worker (map (λ v. (v, ticker)) polls ++ (w, done) ∷ []) db).1.publish_schedules
    → s.status ≡ claimed
    → s.locked_by ≢ some worker.id
unfolding run shutdown tick
stopped_holds_nothing worker [] w db s fine m active locked =
    let free = released worker.id _ db s (rw fine at m) in
    absurd (cc (rw (active, locked, text_eq_refl worker.id) at free))
stopped_holds_nothing worker (v ∷ polls) w db s fine m active locked =
    stopped_holds_nothing (tick v 0 worker db).0 polls w (tick v 0 worker db).1 s fine m active
      locked
