-- ===== src/Store/Schedules/InOrder.antt =====
-- Every operation on the queue keeps it in order: one active schedule to a content, a lease on
-- exactly the claimed rows, each target a version of the content.
use qdt_test.Common.{
  ℕ, Text, text_eq, ◌≡◌, refl, List, Bool, false, ◌&&◌, ◌++◌, ◌∷◌, [], any, arith, ok,
}
use qdt_test.Store.Model.{Db, Schedule, Status, pending}
use qdt_test.Store.Tx.{Conn}
use qdt_test.Store.Tx.Rules.{tx-keeps}
use qdt_test.Store.Statements.{insert_schedule, insert_event, set_published, is_active}
use qdt_test.Store.Exactly.{Once}
use qdt_test.Store.Queued.{InOrder, Queued-schedule, Queued-update}
use qdt_test.Store.Publish.{check_owner}
use qdt_test.Store.Publish.Consistent.{check_owner-belongs}
use qdt_test.Store.Schedules.Once.{
  cancel_schedule_body-frame, fail_body-frame, release_body-frame, claim_body-frame,
  complete_body-frame, id_in-open,
}
use qdt_test.Store.Schedules.{
  ClaimedJob, create_schedule, create_schedule_body, new_schedule, cancel_schedule,
  cancel_schedule_body, can_cancel, unlocked, claim_due_schedules, claim_body, due_rows, id_in,
  lease, complete_scheduled_publish, complete_body, holds, fail_schedule, fail_body, with_error,
  held_by, release_claims, release_body,
}

create_schedule_body-rows :
    (id content_id : Text) (version_id run_at now : ℕ) (db after : Db) (s : Schedule)
    → create_schedule_body id content_id version_id run_at now db ≡ ok (s, after)
    → (check_owner version_id content_id db ≡ ok tt)
      × (any (λ r. is_active r.status && text_eq r.content_id content_id) db.publish_schedules
          ≡ false)
      × (after.publish_schedules
          ≡ db.publish_schedules ++ new_schedule id content_id version_id run_at now ∷ [])
      × (after.content_versions ≡ db.content_versions)
unfolding create_schedule_body insert_schedule
create_schedule_body-rows id content_id version_id run_at now db after s run = ground arith

pub create_schedule-InOrder :
    (conn : Conn) (id content_id : Text) (version_id run_at now : ℕ) (db : Db)
    → InOrder db
    → InOrder (create_schedule conn id content_id version_id run_at now db).1
unfolding create_schedule
create_schedule-InOrder conn id content_id version_id run_at now db q =
    tx-keeps conn (create_schedule_body id content_id version_id run_at now) db InOrder q
      (λ s after run.
        let (owner, alone, rows, versions) =
          create_schedule_body-rows id content_id version_id run_at now db after s run in
        rw (rows, versions)
          (Queued-schedule db.content_versions db.publish_schedules
            (new_schedule id content_id version_id run_at now) alone (refl, refl)
            (check_owner-belongs version_id content_id db owner) q))

-- What the bodies that rewrite rows leave of the versions.
module _ (db after : Db) (now : ℕ) where
  cancel-versions :
      (id : Text) (u : Unit {0})
      → cancel_schedule_body id now db ≡ ok (u, after)
      → after.content_versions ≡ db.content_versions
  unfolding cancel_schedule_body
  cancel-versions id u run = ground arith

  claim-versions :
      (worker : Text) (expiry limit : ℕ) (jobs : List ClaimedJob)
      → claim_body worker now expiry limit db ≡ ok (jobs, after)
      → after.content_versions ≡ db.content_versions
  unfolding claim_body
  claim-versions worker expiry limit jobs run = ground arith

  complete-versions :
      (job : ClaimedJob) (worker : Text) (b : Bool)
      → complete_body job worker now db ≡ ok (b, after)
      → after.content_versions ≡ db.content_versions
  unfolding complete_body insert_event set_published
  complete-versions job worker b run = ground arith

  fail-versions :
      (id worker reason : Text) (u : Unit {0})
      → fail_body id worker reason now db ≡ ok (u, after)
      → after.content_versions ≡ db.content_versions
  unfolding fail_body
  fail-versions id worker reason u run = ground arith

  release-versions :
      (worker : Text) (n : ℕ)
      → release_body worker now db ≡ ok (n, after)
      → after.content_versions ≡ db.content_versions
  unfolding release_body
  release-versions worker n run = ground arith

module _ (conn : Conn) (now : ℕ) (db : Db) (q : InOrder db) where
  pub cancel_schedule-InOrder : (id : Text) → InOrder (cancel_schedule conn id now db).1
  unfolding cancel_schedule
  cancel_schedule-InOrder id =
      tx-keeps conn (cancel_schedule_body id now) db InOrder q (λ u after run.
        rw
          (
            (cancel_schedule_body-frame id now db after u run).0,
            cancel-versions db after now id u run,
          )
          (Queued-update db.content_versions db.publish_schedules (can_cancel id)
            (unlocked Status.cancelled now) (λ s. (refl, refl)) (λ s m h a. cc) (λ s. (refl, refl))
            q))

  pub claim_due_schedules-InOrder :
      (worker : Text) (expiry limit : ℕ)
      → Once db
      → InOrder (claim_due_schedules conn worker now expiry limit db).1
  unfolding claim_due_schedules
  claim_due_schedules-InOrder worker expiry limit x =
      tx-keeps conn (claim_body worker now expiry limit) db InOrder q (λ jobs after run.
        rw
          (
            (claim_body-frame worker now expiry limit db after jobs run).0,
            claim-versions db after now worker expiry limit jobs run,
          )
          (Queued-update db.content_versions db.publish_schedules
            (id_in (due_rows now limit db.publish_schedules)) (lease worker expiry now)
            (λ s. (refl, refl))
            (λ s m h a.
              let due = id_in-open now limit db.publish_schedules x.ids s m h in ground arith)
            (λ s. (refl, refl)) q))

  pub complete_scheduled_publish-InOrder :
      (job : ClaimedJob) (worker : Text)
      → InOrder (complete_scheduled_publish conn job worker now db).1
  unfolding complete_scheduled_publish
  complete_scheduled_publish-InOrder job worker =
      tx-keeps conn (complete_body job worker now) db InOrder q (λ b after run.
        rw
          (
            (complete_body-frame job worker now db after b run).2,
            complete-versions db after now job worker b run,
          )
          (Queued-update db.content_versions db.publish_schedules (holds job.schedule_id worker)
            (unlocked Status.done now) (λ s. (refl, refl)) (λ s m h a. cc) (λ s. (refl, refl)) q))

  pub fail_schedule-InOrder :
      (id worker reason : Text) → InOrder (fail_schedule conn id worker reason now db).1
  unfolding fail_schedule
  fail_schedule-InOrder id worker reason =
      tx-keeps conn (fail_body id worker reason now) db InOrder q (λ u after run.
        rw
          (
            (fail_body-frame id worker reason now db after u run).0,
            fail-versions db after now id worker reason u run,
          )
          (Queued-update db.content_versions db.publish_schedules (holds id worker)
            (λ s. with_error reason (unlocked pending now s)) (λ s. (refl, refl))
            (λ s m h a. ground arith) (λ s. (refl, refl)) q))

  pub release_claims-InOrder : (worker : Text) → InOrder (release_claims conn worker now db).1
  unfolding release_claims
  release_claims-InOrder worker =
      tx-keeps conn (release_body worker now) db InOrder q (λ n after run.
        rw
          (
            (release_body-frame worker now db after n run).0,
            release-versions db after now worker n run,
          )
          (Queued-update db.content_versions db.publish_schedules (held_by worker)
            (unlocked pending now) (λ s. (refl, refl)) (λ s m h a. ground arith) (λ s. (refl, refl))
            q))
