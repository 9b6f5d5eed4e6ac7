-- ===== src/Store/Schedules.antt =====
-- internal/store/schedules.go: the queue of scheduled publishes and its lease protocol.
pub mod Leases
pub mod InOrder
pub mod Consistent
pub mod Once
pub mod Complete
pub mod Late
pub mod Ready
use qdt_test.Common.{
  ℕ, ◌+◌, Text, text_eq, text_ltb, ◌==◌, ltb, leb, if◌then◌else◌, Option, none, some, Bool, true,
  false, ◌&&◌, or_fail, ◌||◌, not, List, [], map, Result, ok, err, ◌>>=◌, ◌>>◌, map_err, find, any,
  count, select, update, sort, take,
}
use qdt_test.Store.Model.{
  Db, Error, not_found, not_cancellable, schedule_exists, lease_lost, wrapped, Schedule, Status,
  pending, claimed, done, cancelled, Event, Action, Source,
}
use qdt_test.Store.Tx.{Conn, tx, unless_unique}
use qdt_test.Store.Statements.{insert_schedule, set_published, is_pending, is_claimed, opt_text_eq}
use qdt_test.Store.Publish.{check_owner, insert_event_tx}

abbrev pub new_schedule : Text → Text → ℕ → ℕ → ℕ → Schedule
new_schedule id content_id version_id run_at now = record {
  id = id;
  content_id = content_id;
  version_id = version_id;
  run_at = run_at;
  status = pending;
  attempts = 0;
  locked_by = none;
  lock_expires_at = none;
  last_error = [];
  created_at = now;
  updated_at = now;
}

pub create_schedule_body : Text → Text → ℕ → ℕ → ℕ → Db → Result Error (Schedule × Db)
unfolding check_owner
create_schedule_body id content_id version_id run_at now db = do
  check_owner version_id content_id db
  after ←
      map_err (unless_unique schedule_exists "insert schedule")
        (insert_schedule (new_schedule id content_id version_id run_at now) db)
  ok (new_schedule id content_id version_id run_at now, after)

unfoldable pub create_schedule : Conn → Text → Text → ℕ → ℕ → ℕ → Db → Result Error Schedule × Db
unfolding create_schedule_body
create_schedule conn id content_id version_id run_at now =
    tx conn (create_schedule_body id content_id version_id run_at now)

unfoldable pub get_schedule : Text → Db → Result Error Schedule
get_schedule id db = or_fail not_found (find (λ s. text_eq s.id id) db.publish_schedules)

-- `ORDER BY created_at DESC, id DESC`.
abbrev pub newest_first : Schedule → Schedule → Bool
newest_first s t =
    ltb t.created_at s.created_at || (t.created_at == s.created_at && not (text_ltb s.id t.id))

unfoldable pub list_schedules : Text → Db → List Schedule
list_schedules content_id db =
    sort newest_first (select (λ s. text_eq s.content_id content_id) db.publish_schedules)

abbrev pub unlocked : Status → ℕ → Schedule → Schedule
unlocked status now s = record s {
  status = status;
  locked_by = none;
  lock_expires_at = none;
  updated_at = now;
}

abbrev pub set_schedules : List Schedule → Db → Db
set_schedules rows db = record db { publish_schedules = rows }

-- `WHERE id = ? AND status = 'pending'`.
abbrev pub can_cancel : Text → Schedule → Bool
can_cancel id s = text_eq s.id id && is_pending s.status

not_cancelled : Text → Db → Result Error (Unit {0} × Db)
not_cancelled id db = elim (find (λ s. text_eq s.id id) db.publish_schedules) [
  | none ↦ err not_found
  | some _ ↦ err not_cancellable
]

pub cancel_schedule_body : Text → ℕ → Db → Result Error (Unit {0} × Db)
unfolding not_cancelled
cancel_schedule_body id now db =
    if count (can_cancel id) db.publish_schedules == 1
    then ok (
      tt,
      set_schedules (update (can_cancel id) (unlocked cancelled now) db.publish_schedules) db,
    )
    else not_cancelled id db

unfoldable pub cancel_schedule : Conn → Text → ℕ → Db → Result Error (Unit {0}) × Db
unfolding cancel_schedule_body
cancel_schedule conn id now = tx conn (cancel_schedule_body id now)

pub record ClaimedJob : Type 0 where
  pub schedule_id : Text
  pub content_id : Text
  pub version_id : ℕ

abbrev pub expired : ℕ → Option ℕ → Bool
expired now none = false
expired now (some t) = leb t now

-- `(status = 'pending' AND run_at <= ?) OR (status = 'claimed' AND lock_expires_at <= ?)`.
abbrev pub is_due : ℕ → Schedule → Bool
is_due now s =
    (is_pending s.status && leb s.run_at now)
    || (is_claimed s.status && expired now s.lock_expires_at)

abbrev pub by_run_at : Schedule → Schedule → Bool
by_run_at s t = leb s.run_at t.run_at

-- The subquery: `ORDER BY run_at LIMIT ?` over the due rows.
unfoldable pub due_rows : ℕ → ℕ → List Schedule → List Schedule
due_rows now limit rows = take limit (sort by_run_at (select (is_due now) rows))

-- `id IN (…)`.
abbrev pub id_in : List Schedule → Schedule → Bool
id_in chosen s = any (λ r. text_eq r.id s.id) chosen

abbrev pub lease : Text → ℕ → ℕ → Schedule → Schedule
lease worker expiry now s = record s {
  status = claimed;
  locked_by = some worker;
  lock_expires_at = some expiry;
  attempts = s.attempts + 1;
  updated_at = now;
}

-- `RETURNING id, content_id, version_id`.
abbrev pub job_of : Schedule → ClaimedJob
job_of s = record { schedule_id = s.id; content_id = s.content_id; version_id = s.version_id }

pub claim_body : Text → ℕ → ℕ → ℕ → Db → Result Error (List ClaimedJob × Db)
claim_body worker now expiry limit db =
    let chosen = due_rows now limit db.publish_schedules in
    ok (
      map job_of (select (id_in chosen) db.publish_schedules),
      set_schedules (update (id_in chosen) (lease worker expiry now) db.publish_schedules) db,
    )

unfoldable pub claim_due_schedules :
    Conn → Text → ℕ → ℕ → ℕ → Db → Result Error (List ClaimedJob) × Db
unfolding claim_body
claim_due_schedules conn worker now expiry limit = tx conn (claim_body worker now expiry limit)

abbrev pub job_event : ClaimedJob → ℕ → Db → Event
job_event job now db = record {
  id = db.next_event_id;
  content_id = job.content_id;
  version_id = some job.version_id;
  action = Action.publish;
  source = Source.scheduled;
  schedule_id = some job.schedule_id;
  actor = [];
  occurred_at = now;
}

-- `WHERE id = ? AND status = 'claimed' AND locked_by = ?`.
abbrev pub holds : Text → Text → Schedule → Bool
holds id worker s = text_eq s.id id && (is_claimed s.status && opt_text_eq s.locked_by worker)

-- The job is closed only under the lease.
close_job : Text → Text → ℕ → Db → Result Error (Bool × Db)
close_job id worker now db =
    if count (holds id worker) db.publish_schedules == 0
    then err lease_lost
    else ok
        (true, set_schedules (update (holds id worker) (unlocked done now) db.publish_schedules) db)

pub complete_body : ClaimedJob → Text → ℕ → Db → Result Error (Bool × Db)
unfolding insert_event_tx close_job
complete_body job worker now db = do
  pointed ←
      map_err (wrapped "set published version")
        (set_published job.content_id (some job.version_id) (some now) now db)
  recorded ← insert_event_tx (job_event job now pointed) pointed
  close_job job.schedule_id worker now recorded

-- `errors.Is(err, errLeaseLost)` is no failure.
abbrev pub forgive_lease_lost : Result Error Bool → Result Error Bool
forgive_lease_lost (err lease_lost) = ok false
forgive_lease_lost r = r

unfoldable pub complete_scheduled_publish :
    Conn → ClaimedJob → Text → ℕ → Db → Result Error Bool × Db
unfolding complete_body
complete_scheduled_publish conn job worker now db =
    let (r, after) = tx conn (complete_body job worker now) db in (forgive_lease_lost r, after)

abbrev pub with_error : Text → Schedule → Schedule
with_error reason s = record s { last_error = reason }

pub fail_body : Text → Text → Text → ℕ → Db → Result Error (Unit {0} × Db)
fail_body id worker reason now db = ok (
  tt,
  set_schedules
      (update (holds id worker) (λ s. with_error reason (unlocked pending now s))
        db.publish_schedules)
      db,
)

unfoldable pub fail_schedule : Conn → Text → Text → Text → ℕ → Db → Result Error (Unit {0}) × Db
unfolding fail_body
fail_schedule conn id worker reason now = tx conn (fail_body id worker reason now)

-- `WHERE status = 'claimed' AND locked_by = ?`.
abbrev pub held_by : Text → Schedule → Bool
held_by worker s = is_claimed s.status && opt_text_eq s.locked_by worker

pub release_body : Text → ℕ → Db → Result Error (ℕ × Db)
release_body worker now db = ok (
  count (held_by worker) db.publish_schedules,
  set_schedules (update (held_by worker) (unlocked pending now) db.publish_schedules) db,
)

unfoldable pub release_claims : Conn → Text → ℕ → Db → Result Error ℕ × Db
unfolding release_body
release_claims conn worker now = tx conn (release_body worker now)
