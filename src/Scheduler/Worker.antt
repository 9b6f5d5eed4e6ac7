-- ===== src/Scheduler/Worker.antt =====
-- internal/scheduler/worker.go: the polling worker. Times are nanoseconds since the Unix epoch; the
-- clock and the driver enter as the sequences of their answers.
pub mod Shutdown
pub mod Jobs
pub mod Progress
pub mod Among
pub mod Keeps
use qdt_test.Common.{ℕ, suc, Bool, ◌+◌, ◌/◌, Text, List, [], ◌∷◌, Result, ok, err}
use qdt_test.Store.Model.{Db, Error}
use qdt_test.Store.Tx.{Conn}
use qdt_test.Store.Schedules.{
  ClaimedJob, claim_due_schedules, complete_scheduled_publish, fail_schedule, release_claims,
}

-- `Time.UnixMilli`.
abbrev pub to_millis : ℕ → ℕ
to_millis t = t / 1_000_000

pub record Worker : Type 0 where
  pub id : Text
  pub lease : ℕ
  pub batch : ℕ
  pub ticks : ℕ

-- What surrounds the worker: the text of an error, the readings of the clock, and how the driver
-- answers the transactions, in their order.
pub record World : Type 0 where
  pub error_text : Error → Text
  pub now : ℕ → ℕ
  pub conn : ℕ → Conn

-- What `execute` does with the answer of the completion: the second transaction is the record of a
-- failure.
unfoldable pub record_failure : World → ℕ → Worker → ClaimedJob → ℕ → Result Error Bool × Db → Db
record_failure w n worker job now (err e, after) =
    (fail_schedule (w.conn (suc (n + n))) job.schedule_id worker.id (w.error_text e) now after).1
record_failure w n worker job now (ok _, after) = after

unfoldable pub execute : World → ℕ → Worker → ClaimedJob → Db → Db
unfolding record_failure
execute w n worker job db =
    let now = to_millis (w.now n) in
    record_failure w n worker job now
      (complete_scheduled_publish (w.conn (n + n)) job worker.id now db)

unfoldable pub execute_all : World → ℕ → Worker → List ClaimedJob → Db → Db
unfolding execute
execute_all w n worker [] db = db
execute_all w n worker (job ∷ jobs) db =
    execute_all w (suc n) worker jobs (execute w n worker job db)

abbrev counted : Worker → Worker
counted worker = record worker { ticks = suc worker.ticks }

unfoldable pub run_claimed : World → ℕ → Worker → Result Error (List ClaimedJob) × Db → Db
unfolding execute_all
run_claimed w n worker (err e, db) = db
run_claimed w n worker (ok jobs, db) = execute_all w n worker jobs db

-- One poll: the clock is read for the due time and again for the end of the lease. The poll is
-- counted on every path.
unfoldable pub tick : World → ℕ → Worker → Db → Worker × Db
unfolding run_claimed
tick w n worker db = (
  counted worker,
  run_claimed w (n + 2) worker (
      claim_due_schedules (w.conn n) worker.id (to_millis (w.now n))
        (to_millis (w.now (n + 1) + worker.lease)) worker.batch db),
)

-- Once no job is running, the claims that the worker still holds go back.
unfoldable pub shutdown : World → ℕ → Worker → Db → Db
shutdown w n worker db = (release_claims (w.conn n) worker.id (to_millis (w.now n)) db).1

pub data Signal : Type 0 where
  ticker done : Signal

-- The loop over what the `select` receives, each with the world that the round sees.
unfoldable pub run : Worker → List (World × Signal) → Db → Worker × Db
unfolding tick shutdown
run worker [] db = (worker, db)
run worker ((w, done) ∷ _) db = (worker, shutdown w 0 worker db)
run worker ((w, ticker) ∷ rest) db =
    let (worker', after) = tick w 0 worker db in run worker' rest after
