-- ===== src/Store/Schedules/Once.antt =====
-- Every operation on the queue keeps the one event of each schedule that is done.
use qdt_test.Common.{
  ℕ, Text, text_eq, ◌≡◌, refl, sym, ap, ◌==◌, select, some, Bool, true, false, ◌++◌, ◌∷◌, [], List,
  any, count, update, arith, ok, Apart, any-in, take-in, sort-in, select-in, count-in, Apart-eq,
}
use mathlib.Core.List.{Memᴰ}
use qdt_test.Store.Model.{Db, Schedule, Status, pending, done, Event}
use qdt_test.Store.Tx.{Conn}
use qdt_test.Store.Tx.Rules.{tx-keeps}
use qdt_test.Store.Statements.{insert_event, insert_schedule, set_published, is_done}
use qdt_test.Store.Exactly.{
  Once, SameId, has_id, event_of, ExactlyOnce, ExactlyOnce-update, ExactlyOnce-schedule,
  ExactlyOnce-complete,
}
use qdt_test.Store.Schedules.{
  ClaimedJob, create_schedule, create_schedule_body, new_schedule, cancel_schedule,
  cancel_schedule_body, can_cancel, unlocked, claim_due_schedules, claim_body, due_rows, is_due,
  id_in, lease, complete_scheduled_publish, complete_body, job_event, holds, fail_schedule,
  fail_body, with_error, by_run_at, held_by, release_claims, release_body,
}

pub create_schedule_body-frame :
    (id content_id : Text) (version_id run_at now : ℕ) (db after : Db) (s : Schedule)
    → create_schedule_body id content_id version_id run_at now db ≡ ok (s, after)
    → (any (has_id id) db.publish_schedules ≡ false)
      × (after.publish_schedules
          ≡ db.publish_schedules ++ new_schedule id content_id version_id run_at now ∷ [])
      × (after.publish_events ≡ db.publish_events)
unfolding create_schedule_body insert_schedule
create_schedule_body-frame id content_id version_id run_at now db after s run = ground arith

pub create_schedule-Once :
    (conn : Conn) (id content_id : Text) (version_id run_at now : ℕ) (db : Db)
    → Once db
    → Once (create_schedule conn id content_id version_id run_at now db).1
unfolding create_schedule
create_schedule-Once conn id content_id version_id run_at now db x =
    tx-keeps conn (create_schedule_body id content_id version_id run_at now) db Once x
      (λ s after run.
        let (fresh, rows, events) =
          create_schedule_body-frame id content_id version_id run_at now db after s run in
        rw (rows, events)
          (ExactlyOnce-schedule db.publish_schedules db.publish_events
            (new_schedule id content_id version_id run_at now) fresh refl x))

-- Rows rewritten where they are pending or claimed, and not to done.
module _ (p : Schedule → Bool) (f : Schedule → Schedule)
    (same_id : (s : Schedule) → (f s).id ≡ s.id)
    (open_after : (s : Schedule) → is_done (f s).status ≡ false) where
  rewrite-Once :
      (rows : List Schedule) (events : List Event)
      → ((s : Schedule) → Memᴰ s rows → p s ≡ true → is_done s.status ≡ false)
      → ExactlyOnce rows events
      → ExactlyOnce (update p f rows) events
  rewrite-Once rows events open_before =
      ExactlyOnce-update p f rows events (λ s. ground (arith, same_id s))
        (λ s m. ground (arith, open_after s, open_before s m))

pub cancel_schedule_body-frame :
    (id : Text) (now : ℕ) (db after : Db) (u : Unit {0})
    → cancel_schedule_body id now db ≡ ok (u, after)
    → (after.publish_schedules
        ≡ update (can_cancel id) (unlocked Status.cancelled now) db.publish_schedules)
      × (after.publish_events ≡ db.publish_events)
unfolding cancel_schedule_body
cancel_schedule_body-frame id now db after u run = ground arith

pub cancel_schedule-Once :
    (conn : Conn) (id : Text) (now : ℕ) (db : Db)
    → Once db
    → Once (cancel_schedule conn id now db).1
unfolding cancel_schedule
cancel_schedule-Once conn id now db x =
    tx-keeps conn (cancel_schedule_body id now) db Once x (λ u after run.
      let (rows, events) = cancel_schedule_body-frame id now db after u run in
      rw (rows, events)
        (rewrite-Once (can_cancel id) (unlocked Status.cancelled now) (λ s. refl) (λ s. refl)
          db.publish_schedules db.publish_events (λ s m h. ground arith) x))

pub fail_body-frame :
    (id worker reason : Text) (now : ℕ) (db after : Db) (u : Unit {0})
    → fail_body id worker reason now db ≡ ok (u, after)
    → (after.publish_schedules
        ≡ update
            (holds id worker)
            (λ s. with_error reason (unlocked pending now s))
            db.publish_schedules)
      × (after.publish_events ≡ db.publish_events)
unfolding fail_body
fail_body-frame id worker reason now db after u run = ground arith

pub fail_schedule-Once :
    (conn : Conn) (id worker reason : Text) (now : ℕ) (db : Db)
    → Once db
    → Once (fail_schedule conn id worker reason now db).1
unfolding fail_schedule
fail_schedule-Once conn id worker reason now db x =
    tx-keeps conn (fail_body id worker reason now) db Once x (λ u after run.
      let (rows, events) = fail_body-frame id worker reason now db after u run in
      rw (rows, events)
        (rewrite-Once (holds id worker) (λ s. with_error reason (unlocked pending now s))
          (λ s. refl) (λ s. refl) db.publish_schedules db.publish_events (λ s m h. ground arith) x))

pub release_body-frame :
    (worker : Text) (now : ℕ) (db after : Db) (n : ℕ)
    → release_body worker now db ≡ ok (n, after)
    → (after.publish_schedules
        ≡ update (held_by worker) (unlocked pending now) db.publish_schedules)
      × (after.publish_events ≡ db.publish_events)
unfolding release_body
release_body-frame worker now db after n run = ground arith

pub release_claims-Once :
    (conn : Conn) (worker : Text) (now : ℕ) (db : Db)
    → Once db
    → Once (release_claims conn worker now db).1
unfolding release_claims
release_claims-Once conn worker now db x =
    tx-keeps conn (release_body worker now) db Once x (λ n after run.
      let (rows, events) = release_body-frame worker now db after n run in
      rw (rows, events)
        (rewrite-Once (held_by worker) (unlocked pending now) (λ s. refl) (λ s. refl)
          db.publish_schedules db.publish_events (λ s m h. ground arith) x))

-- A row among those that the subquery chose is due, and by the unique ids it is the chosen one.
pub id_in-open :
    (now limit : ℕ) (rows : List Schedule)
    → Apart SameId rows
    → (s : Schedule) → Memᴰ s rows
    → id_in (due_rows now limit rows) s ≡ true
    → is_due now s ≡ true
unfolding due_rows
id_in-open now limit rows ids s m h =
    let (r, chosen, same) =
      any-in (λ (r : Schedule). text_eq r.id s.id) (due_rows now limit rows) h in
    let (in_rows, due) =
      select-in r (is_due now) rows
        (sort-in by_run_at (select (is_due now) rows) (take-in limit _ chosen)) in
    let one : r ≡ s = Apart-eq SameId rows ids (λ a b c. sym c) in_rows m (ground arith) in
    rw one at due

pub claim_body-frame :
    (worker : Text) (now expiry limit : ℕ) (db after : Db) (jobs : List ClaimedJob)
    → claim_body worker now expiry limit db ≡ ok (jobs, after)
    → let chosen = due_rows now limit db.publish_schedules in
      (after.publish_schedules
        ≡ update (id_in chosen) (lease worker expiry now) db.publish_schedules)
      × (after.publish_events ≡ db.publish_events)
unfolding claim_body
claim_body-frame worker now expiry limit db after jobs run = ground arith

pub claim_due_schedules-Once :
    (conn : Conn) (worker : Text) (now expiry limit : ℕ) (db : Db)
    → Once db
    → Once (claim_due_schedules conn worker now expiry limit db).1
unfolding claim_due_schedules
claim_due_schedules-Once conn worker now expiry limit db x =
    tx-keeps conn (claim_body worker now expiry limit) db Once x (λ jobs after run.
      let (rows, events) = claim_body-frame worker now expiry limit db after jobs run in
      rw (rows, events)
        (rewrite-Once (id_in (due_rows now limit db.publish_schedules)) (lease worker expiry now)
          (λ s. refl) (λ s. refl) db.publish_schedules db.publish_events
          (λ s m h. let due = id_in-open now limit db.publish_schedules x.ids s m h in ground arith)
          x))

pub complete_body-frame :
    (job : ClaimedJob) (worker : Text) (now : ℕ) (db after : Db) (b : Bool)
    → complete_body job worker now db ≡ ok (b, after)
    → (any (event_of job.schedule_id) db.publish_events ≡ false)
      × ((count (holds job.schedule_id worker) db.publish_schedules == 0) ≡ false)
      × (after.publish_schedules
          ≡ update (holds job.schedule_id worker) (unlocked done now) db.publish_schedules)
      × (after.publish_events ≡ db.publish_events ++ job_event job now db ∷ [])
unfolding complete_body insert_event set_published
complete_body-frame job worker now db after b run = ground arith

pub complete_scheduled_publish-Once :
    (conn : Conn) (job : ClaimedJob) (worker : Text) (now : ℕ) (db : Db)
    → Once db
    → Once (complete_scheduled_publish conn job worker now db).1
unfolding complete_scheduled_publish
complete_scheduled_publish-Once conn job worker now db x =
    tx-keeps conn (complete_body job worker now) db Once x (λ b after run.
      let (first, held, rows, events) = complete_body-frame job worker now db after b run in
      let (s, m, h) = count-in (holds job.schedule_id worker) db.publish_schedules held in
      let same : s.id ≡ job.schedule_id = ground arith in
      rw (rows, events)
        (ExactlyOnce-complete db.publish_schedules db.publish_events (job_event job now db)
          (holds job.schedule_id worker) (unlocked done now) s (ap some (sym same)) (rw same first)
          m (λ t. ground arith) (λ t ne. ground (arith, same)) h refl x))
