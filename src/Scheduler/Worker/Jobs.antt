-- ===== src/Scheduler/Worker/Jobs.antt =====
-- The jobs of one poll, and what they do to the schedule of one of them.
use qdt_test.Common.{
  ℕ, suc, ◌+◌, Text, text_eq, text_eq_refl, ◌≡◌, refl, inl, inr, Bool, true, false, List, [], ◌∷◌,
  Result, ok, err, arith, Bool-cases,
}
use mathlib.Core.List.{Memᴰ}
use mathlib.Core.List.Memᴰ
use qdt_test.Store.Model.{Db, Error, Schedule, done}
use qdt_test.Store.Tx.{healthy}
use qdt_test.Store.Schedules.{
  ClaimedJob, job_of, holds, unlocked, complete_scheduled_publish, fail_schedule,
}
use qdt_test.Store.Schedules.Ready.{
  Ready, Held, complete-Ready, fail-Ready, in-complete, in-fail, complete_held_row,
}
use qdt_test.Scheduler.Worker.{World, Worker, to_millis, record_failure, execute, execute_all}

-- The schedule is done.
abbrev pub Closed : Schedule → Db → Type 0
Closed s db = (t : Schedule) × Memᴰ t db.publish_schedules × (t.id ≡ s.id) × (t.status ≡ done)

module _ (w : World) (n : ℕ) (worker : Worker) (job : ClaimedJob) where
  -- What both transactions of a job keep, the job keeps.
  pub record_failure-keeps :
      (P : Db → Type 0) (now : ℕ) (r : Result Error Bool × Db)
      → P r.1
      → ((reason : Text) (db : Db)
          → P db
          → P (fail_schedule (w.conn (suc (n + n))) job.schedule_id worker.id reason now db).1)
      → P (record_failure w n worker job now r)
  unfolding record_failure
  record_failure-keeps P now (err e, after) p k = k (w.error_text e) after p
  record_failure-keeps P now (ok b, after) p k = p

  execute-Ready : (db : Db) (s : Schedule) → Ready s db → Ready s (execute w n worker job db)
  unfolding execute
  execute-Ready db s r =
      let now = to_millis (w.now n) in
      record_failure-keeps (Ready s) now
        (complete_scheduled_publish (w.conn (n + n)) job worker.id now db)
        (complete-Ready (w.conn (n + n)) job worker.id now db s r)
        (λ reason after ready.
          fail-Ready (w.conn (suc (n + n))) job worker.id now after s reason ready)

  execute-keeps_row :
      (db : Db) (s : Schedule)
      → holds job.schedule_id worker.id s ≡ false
      → Memᴰ s db.publish_schedules
      → Memᴰ s (execute w n worker job db).publish_schedules
  unfolding execute
  execute-keeps_row db s miss m =
      let now = to_millis (w.now n) in
      record_failure-keeps (λ d. Memᴰ s d.publish_schedules) now
        (complete_scheduled_publish (w.conn (n + n)) job worker.id now db)
        (in-complete (w.conn (n + n)) job worker.id now db s miss m)
        (λ reason after k. in-fail (w.conn (suc (n + n))) job worker.id now after s reason miss k)

  execute-Closed : (db : Db) (s : Schedule) → Closed s db → Closed s (execute w n worker job db)
  execute-Closed db s (t, m, named, finished) =
      (t, execute-keeps_row db t (ground (arith, finished)) m, named, finished)

  execute-Held :
      (db : Db) (s : Schedule)
      → text_eq s.id job.schedule_id ≡ false
      → Held worker.id s db
      → Held worker.id s (execute w n worker job db)
  execute-Held db s other h = record {
    row = execute-keeps_row db s (rw other refl) h.row;
    status = h.status;
    locked = h.locked;
  }

  execute-done :
      (db : Db) (s : Schedule)
      → w.conn (n + n) ≡ healthy
      → job ≡ job_of s
      → Ready s db
      → Held worker.id s db
      → Closed s (execute w n worker job db)
  unfolding execute record_failure
  execute-done db s fine mine r h =
      let now = to_millis (w.now n) in
      let (after, run, row) = complete_held_row worker.id now db s r h in
      rw (fine, mine, run) (unlocked done now s, row, refl, refl)

module _ (w : World) (worker : Worker) (s : Schedule) where
  execute_all-Closed :
      (jobs : List ClaimedJob) (n : ℕ) (db : Db)
      → Ready s db
      → Closed s db
      → Closed s (execute_all w n worker jobs db) × Ready s (execute_all w n worker jobs db)
  unfolding execute_all
  execute_all-Closed [] n db r c = (c, r)
  execute_all-Closed (job ∷ jobs) n db r c =
      execute_all-Closed jobs (suc n) (execute w n worker job db)
        (execute-Ready w n worker job db s r) (execute-Closed w n worker job db s c)

  pub execute_all-done :
      (jobs : List ClaimedJob) (n : ℕ) (db : Db)
      → ((k : ℕ) → w.conn k ≡ healthy)
      → ((j : ClaimedJob) → Memᴰ j jobs → j.schedule_id ≡ s.id → j ≡ job_of s)
      → Memᴰ (job_of s) jobs
      → Ready s db
      → Held worker.id s db
      → Closed s (execute_all w n worker jobs db) × Ready s (execute_all w n worker jobs db)
  unfolding execute_all
  execute_all-done [] n db fine only m r h = elim m [ ]
  execute_all-done (job ∷ jobs) n db fine only m r h =
      elim (Bool-cases (text_eq s.id job.schedule_id)) [
        | inl same ↦
            let mine = only job (Memᴰ.head refl) (ground arith) in
            execute_all-Closed jobs (suc n) (execute w n worker job db)
              (execute-Ready w n worker job db s r)
              (execute-done w n worker job db s (fine (n + n)) mine r h)
        | inr other ↦ elim (Memᴰ.cases_cons m) [
          | inl this ↦ absurd (
              let at : text_eq s.id job.schedule_id ≡ true = rw (← this) (text_eq_refl s.id) in
              cc (at, other))
          | inr later ↦
              execute_all-done jobs (suc n) (execute w n worker job db) fine
                (λ j k. only j (Memᴰ.tail k)) later (execute-Ready w n worker job db s r)
                (execute-Held w n worker job db s other h)
        ]
      ]
