-- ===== src/Store/History/Honest.antt =====
-- Histories of internal/store: the jobs that workers hold, over any store call.
use qdt_test.Common.{◌≡◌, refl, true, any, any-update, any-append_left, ◌∙◌}
use qdt_test.Store.Model.{Db, Status, pending}
use qdt_test.Store.Tx.{Conn}
use qdt_test.Store.Tx.Rules.{tx-keeps}
use qdt_test.Store.Contents.Frame.{create_content-frame, update_content-frame}
use qdt_test.Store.Publish.InOrder.{publish-SameQueue, unpublish-SameQueue}
use qdt_test.Store.Schedules.{
  ClaimedJob, create_schedule, create_schedule_body, cancel_schedule, cancel_schedule_body,
  can_cancel, unlocked, claim_due_schedules, claim_body, due_rows, id_in, lease,
  complete_scheduled_publish, complete_body, holds, fail_schedule, fail_body, with_error, held_by,
  release_claims, release_body,
}
use qdt_test.Store.Schedules.Once.{
  create_schedule_body-frame, cancel_schedule_body-frame, fail_body-frame, release_body-frame,
  claim_body-frame, complete_body-frame,
}
use qdt_test.Store.History.{
  Call, creates, updates, publishes, unpublishes, schedules, cancels, claims, completes, fails,
  releases, by_hand, step,
}
use qdt_test.Store.History.Integrity.{is_job_of, IsHonest}

-- What every store call keeps, where a completed job is its schedule's.
abbrev pub Steady : (Db → Type 0) → Type 0
Steady P = (conn : Conn) (c : Call) (db : Db) → IsHonest c db → P db → P (step conn c db)

-- A job of a schedule of the table.
abbrev pub Honest : ClaimedJob → Db → Type 0
Honest job db = any (is_job_of job) db.publish_schedules ≡ true

module _ (j : ClaimedJob) (conn : Conn) (db : Db) (h : Honest j db) where
  step-Honest : (c : Call) → Honest j (step conn c db)
  unfolding step create_schedule cancel_schedule claim_due_schedules complete_scheduled_publish
      fail_schedule release_claims
  step-Honest (creates id slug f actor now) =
      rw (create_content-frame conn id f actor now db slug).0 h
  step-Honest (updates id expected f actor now) =
      rw (update_content-frame conn id f actor now db expected).0 h
  step-Honest (publishes id version_id actor now) =
      rw (publish-SameQueue conn db (by_hand id version_id actor now)).0 h
  step-Honest (unpublishes id actor now) = rw (unpublish-SameQueue conn db id actor now).0 h
  step-Honest (schedules id content_id version_id run_at now) =
      tx-keeps conn (create_schedule_body id content_id version_id run_at now) db (Honest j) h
        (λ r after run.
          rw (create_schedule_body-frame id content_id version_id run_at now db after r run).1
            (any-append_left (is_job_of j) db.publish_schedules _ h))
  step-Honest (cancels id now) =
      tx-keeps conn (cancel_schedule_body id now) db (Honest j) h (λ u after run.
        rw (cancel_schedule_body-frame id now db after u run).0 (
          any-update (is_job_of j) (can_cancel id) (unlocked Status.cancelled now)
            db.publish_schedules (λ s. refl)
          ∙ h))
  step-Honest (claims worker now expiry limit) =
      tx-keeps conn (claim_body worker now expiry limit) db (Honest j) h (λ jobs after run.
        rw (claim_body-frame worker now expiry limit db after jobs run).0 (
          any-update (is_job_of j) (id_in (due_rows now limit db.publish_schedules))
            (lease worker expiry now) db.publish_schedules (λ s. refl)
          ∙ h))
  step-Honest (completes job worker now) =
      tx-keeps conn (complete_body job worker now) db (Honest j) h (λ b after run.
        rw (complete_body-frame job worker now db after b run).2 (
          any-update (is_job_of j) (holds job.schedule_id worker) (unlocked Status.done now)
            db.publish_schedules (λ s. refl)
          ∙ h))
  step-Honest (fails id worker reason now) =
      tx-keeps conn (fail_body id worker reason now) db (Honest j) h (λ u after run.
        rw (fail_body-frame id worker reason now db after u run).0 (
          any-update (is_job_of j) (holds id worker)
            (λ s. with_error reason (unlocked pending now s)) db.publish_schedules (λ s. refl)
          ∙ h))
  step-Honest (releases worker now) =
      tx-keeps conn (release_body worker now) db (Honest j) h (λ n after run.
        rw (release_body-frame worker now db after n run).0 (
          any-update (is_job_of j) (held_by worker) (unlocked pending now) db.publish_schedules
            (λ s. refl)
          ∙ h))

-- A job of the table stays one.
pub Honest-Steady : (j : ClaimedJob) → Steady (Honest j)
Honest-Steady j conn c db _ h = step-Honest j conn db h c
