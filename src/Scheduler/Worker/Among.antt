-- ===== src/Scheduler/Worker/Among.antt =====
-- internal/scheduler/worker.go: a poll among other users of the database, which may act before each
-- job and between a failed completion and its record. What they do enters as a sequence of changes.
use qdt_test.Common.{ℕ, suc, ◌+◌, ◌≡◌, refl, List, [], ◌∷◌, Result, ok, err}
use qdt_test.Store.Model.{Db, Error}
use qdt_test.Store.Schedules.{ClaimedJob, claim_due_schedules, complete_scheduled_publish}
use qdt_test.Scheduler.Worker.{
  World, Worker, to_millis, record_failure, execute, execute_all, run_claimed, tick,
}

module _ (others : ℕ → Db → Db) (w : World) where
  -- The change between the two transactions of an execution.
  unfoldable pub execute_among : ℕ → Worker → ClaimedJob → Db → Db
  execute_among n worker job db =
      let now = to_millis (w.now n) in
      let r = complete_scheduled_publish (w.conn (n + n)) job worker.id now db in
      record_failure w n worker job now (r.0, others (suc (n + n)) r.1)

  unfoldable pub execute_all_among : ℕ → Worker → List ClaimedJob → Db → Db
  unfolding execute_among
  execute_all_among n worker [] db = db
  execute_all_among n worker (job ∷ jobs) db =
      execute_all_among (suc n) worker jobs (execute_among n worker job (others (n + n) db))

  unfoldable pub run_claimed_among : ℕ → Worker → Result Error (List ClaimedJob) × Db → Db
  unfolding execute_all_among
  run_claimed_among n worker (err e, db) = db
  run_claimed_among n worker (ok jobs, db) = execute_all_among n worker jobs db

  unfoldable pub tick_among : ℕ → Worker → Db → Db
  unfolding run_claimed_among
  tick_among n worker db = run_claimed_among (n + 2) worker (
      claim_due_schedules (w.conn n) worker.id (to_millis (w.now n))
        (to_millis (w.now (n + 1) + worker.lease)) worker.batch db)

abbrev nobody : ℕ → Db → Db
nobody n db = db

execute_all_among-nobody :
    (w : World) (n : ℕ) (worker : Worker) (jobs : List ClaimedJob) (db : Db)
    → execute_all_among nobody w n worker jobs db ≡ execute_all w n worker jobs db
unfolding execute_all_among execute_all execute_among execute
execute_all_among-nobody w n worker [] db = refl
execute_all_among-nobody w n worker (job ∷ jobs) db =
    execute_all_among-nobody w (suc n) worker jobs (execute w n worker job db)

run_claimed_among-nobody :
    (w : World) (n : ℕ) (worker : Worker) (r : Result Error (List ClaimedJob) × Db)
    → run_claimed_among nobody w n worker r ≡ run_claimed w n worker r
unfolding run_claimed_among run_claimed
run_claimed_among-nobody w n worker (err e, db) = refl
run_claimed_among-nobody w n worker (ok jobs, db) = execute_all_among-nobody w n worker jobs db

-- Where nobody else acts, this is the poll.
pub tick_among-nobody :
    (w : World) (n : ℕ) (worker : Worker) (db : Db)
    → tick_among nobody w n worker db ≡ (tick w n worker db).1
unfolding tick_among tick
tick_among-nobody w n worker db = run_claimed_among-nobody w (n + 2) worker (
    claim_due_schedules (w.conn n) worker.id (to_millis (w.now n))
      (to_millis (w.now (n + 1) + worker.lease)) worker.batch db)
