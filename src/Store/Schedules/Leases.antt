-- ===== src/Store/Schedules/Leases.antt =====
-- The lease protocol: who may claim a schedule, and who may complete it.
use qdt_test.Common.{
  ℕ, Text, ◌≡◌, ◌≢◌, sym, true, List, map, ok, refl, ◌⊎◌, ◌≤◌, ◌&&◌, leb, Bool-cases, Option, none,
  some, inl, inr, arith, select-in, count-in, select, Apart,
}
use mathlib.Core.List.{Memᴰ}
use mathlib.Core.List.Memᴰ
use qdt_test.Store.Model.{Db, Schedule, Status, claimed, pending}
use qdt_test.Store.Statements.{is_claimed, is_pending, opt_text_eq}
use qdt_test.Store.Tx.{Conn}
use qdt_test.Store.Tx.Rules.{tx-Outcome}
use qdt_test.Store.Exactly.{SameId}
use qdt_test.Store.Schedules.Once.{id_in-open, complete_body-frame}
use qdt_test.Store.Schedules.Complete.{complete_held, complete_refused}
use qdt_test.Store.Schedules.{
  ClaimedJob, expired, claim_due_schedules, claim_body, due_rows, is_due, id_in, job_of, holds,
  complete_scheduled_publish, complete_body,
}

pub claim_body-jobs :
    (worker : Text) (now expiry limit : ℕ) (db after : Db) (jobs : List ClaimedJob)
    → claim_body worker now expiry limit db ≡ ok (jobs, after)
    → jobs
      ≡ map job_of (select (id_in (due_rows now limit db.publish_schedules)) db.publish_schedules)
unfolding claim_body
claim_body-jobs worker now expiry limit db after jobs run = ground arith

-- What a claim that succeeds has done.
pub claim_run :
    (conn : Conn) (worker : Text) (now expiry limit : ℕ) (db after : Db) (jobs : List ClaimedJob)
    → claim_due_schedules conn worker now expiry limit db ≡ (ok jobs, after)
    → claim_body worker now expiry limit db ≡ ok (jobs, after)
unfolding claim_due_schedules
claim_run conn worker now expiry limit db after jobs won =
    elim (tx-Outcome conn (claim_body worker now expiry limit) db) [
      | inl (js, d, run, out) ↦
          let same_jobs : js ≡ jobs = cc (out, won) in
          let same_db : d ≡ after = cc (out, won) in rw (same_jobs, same_db) at run
      | inr (e, out) ↦ absurd (cc (out, won))
    ]

-- A claimed job is that of a row that was due.
pub job-due :
    (worker : Text) (now expiry limit : ℕ) (db after : Db) (jobs : List ClaimedJob) (j : ClaimedJob)
    → Apart SameId db.publish_schedules
    → claim_body worker now expiry limit db ≡ ok (jobs, after)
    → Memᴰ j jobs
    → (s : Schedule) × Memᴰ s db.publish_schedules
      × (id_in (due_rows now limit db.publish_schedules) s ≡ true)
      × (j ≡ job_of s)
      × (is_due now s ≡ true)
job-due worker now expiry limit db after jobs j ids run m =
    let rows = db.publish_schedules in
    let chosen = id_in (due_rows now limit rows) in
    let (s, k, e) =
      Memᴰ.of_map job_of (select chosen rows)
        (rw (claim_body-jobs worker now expiry limit db after jobs run) at m) in
    let (in_rows, hit) = select-in s chosen rows k in
    (s, in_rows, hit, sym e, id_in-open now limit rows ids s in_rows hit)

pub status_claimed : (t : Status) → is_claimed t ≡ true → t ≡ claimed
status_claimed t h = ground arith

expired-at : (now : ℕ) (o : Option ℕ) → expired now o ≡ true → (e : ℕ) × (o ≡ some e) × (e ≤ now)
expired-at now none h = absurd (cc h)
expired-at now (some e) h = (e, refl, ground arith)

status_pending : (t : Status) → is_pending t ≡ true → t ≡ pending
status_pending t h = ground arith

-- A schedule that a worker may take: it is pending and its time has come, or its lease has run out.
abbrev pub IsOpen : ℕ → Schedule → Type 0
IsOpen now s =
    ((s.status ≡ pending) × (s.run_at ≤ now))
    ⊎ ((s.status ≡ claimed) × ((e : ℕ) × (s.lock_expires_at ≡ some e) × (e ≤ now)))

pub is_due-IsOpen : (now : ℕ) (s : Schedule) → is_due now s ≡ true → IsOpen now s
is_due-IsOpen now s h = elim (Bool-cases (is_pending s.status && leb s.run_at now)) [
  | inl due ↦ inl (status_pending s.status (ground arith), ground arith)
  | inr other ↦
      inr (status_claimed s.status (ground arith), expired-at now s.lock_expires_at (ground arith))
]

held_row :
    (job : ClaimedJob) (worker : Text) (now : ℕ) (db after : Db)
    → complete_body job worker now db ≡ ok (true, after)
    → (s : Schedule) × Memᴰ s db.publish_schedules × (holds job.schedule_id worker s ≡ true)
held_row job worker now db after run =
    let frame = complete_body-frame job worker now db after true run in
    count-in (holds job.schedule_id worker) db.publish_schedules frame.1

pub locked-by : (o : Option Text) (worker : Text) → opt_text_eq o worker ≡ true → o ≡ some worker
locked-by none worker h = absurd (cc h)
locked-by (some t) worker h = ground arith

-- The test of the update, as what it says of the row.
pub holds-lease :
    (id worker : Text) (s : Schedule)
    → holds id worker s ≡ true
    → (s.id ≡ id) × (s.status ≡ claimed) × (s.locked_by ≡ some worker)
holds-lease id worker s h = (
  ground arith,
  status_claimed s.status (ground arith),
  locked-by s.locked_by worker (ground arith),
)

-- Only the holder of the lease publishes: unless the queue has a row of the job's schedule that is
-- claimed and locked by this very worker, completing the job does not answer true and leaves the
-- whole database as it was, whatever the driver answers.
pub no_lease_no_effect :
    (conn : Conn) (job : ClaimedJob) (worker : Text) (now : ℕ) (db : Db)
    → ((s : Schedule)
        → Memᴰ s db.publish_schedules
        → s.id ≡ job.schedule_id
        → s.status ≡ claimed
        → s.locked_by ≢ some worker)
    → ((complete_scheduled_publish conn job worker now db).0 ≢ ok true)
      × ((complete_scheduled_publish conn job worker now db).1 ≡ db)
no_lease_no_effect conn job worker now db none_held =
    (refused, complete_refused conn job worker now db refused)
  where
    refused : (complete_scheduled_publish conn job worker now db).0 ≢ ok true
    refused done =
        let (after, run, _) = complete_held conn job worker now db done in
        let (s, m, h) = held_row job worker now db after run in
        let (named, active, locked) = holds-lease job.schedule_id worker s h in
        none_held s m named active locked
