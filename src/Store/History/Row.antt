-- ===== src/Store/History/Row.antt =====
-- Histories of internal/store: the schedule rows that a call leaves as they are.
use qdt_test.Common.{◌≡◌, false, in-update_other}
use mathlib.Core.List.{Memᴰ}
use mathlib.Core.List.Memᴰ
use qdt_test.Store.Model.{Db, Schedule, Status, pending}
use qdt_test.Store.Tx.{Conn}
use qdt_test.Store.Tx.Rules.{tx-keeps}
use qdt_test.Store.Contents.Frame.{create_content-frame, update_content-frame}
use qdt_test.Store.Publish.InOrder.{publish-SameQueue, unpublish-SameQueue}
use qdt_test.Store.Schedules.{
  create_schedule, create_schedule_body, cancel_schedule, cancel_schedule_body, can_cancel,
  unlocked, claim_due_schedules, claim_body, due_rows, id_in, lease, complete_scheduled_publish,
  complete_body, holds, fail_schedule, fail_body, with_error, held_by, release_claims, release_body,
}
use qdt_test.Store.Schedules.Once.{
  create_schedule_body-frame, cancel_schedule_body-frame, fail_body-frame, release_body-frame,
  claim_body-frame, complete_body-frame,
}
use qdt_test.Store.History.{
  Call, creates, updates, publishes, unpublishes, schedules, cancels, claims, completes, fails,
  releases, by_hand, step,
}

-- No statement of the call has the row in its WHERE.
abbrev pub Spares : Call → Db → Schedule → Type 0
Spares (cancels id now) db s = can_cancel id s ≡ false
Spares (claims worker now expiry limit) db s =
    id_in (due_rows now limit db.publish_schedules) s ≡ false
Spares (completes job worker now) db s = holds job.schedule_id worker s ≡ false
Spares (fails id worker reason now) db s = holds id worker s ≡ false
Spares (releases worker now) db s = held_by worker s ≡ false
Spares _ db s = Unit {0}

module _ (conn : Conn) (db : Db) (s : Schedule) (m : Memᴰ s db.publish_schedules) where
  abbrev Stays : Db → Type 0
  Stays d = Memᴰ s d.publish_schedules

  pub spared-Stays : (c : Call) → Spares c db s → Stays (step conn c db)
  unfolding step create_schedule cancel_schedule claim_due_schedules complete_scheduled_publish
      fail_schedule release_claims
  spared-Stays (creates id slug f actor now) spared =
      rw (create_content-frame conn id f actor now db slug).0 m
  spared-Stays (updates id expected f actor now) spared =
      rw (update_content-frame conn id f actor now db expected).0 m
  spared-Stays (publishes id version_id actor now) spared =
      rw (publish-SameQueue conn db (by_hand id version_id actor now)).0 m
  spared-Stays (unpublishes id actor now) spared = rw (unpublish-SameQueue conn db id actor now).0 m
  spared-Stays (schedules id content_id version_id run_at now) spared =
      tx-keeps conn (create_schedule_body id content_id version_id run_at now) db Stays m
        (λ r after run.
          rw (create_schedule_body-frame id content_id version_id run_at now db after r run).1
            (Memᴰ.append_left _ m))
  spared-Stays (cancels id now) spared =
      tx-keeps conn (cancel_schedule_body id now) db Stays m (λ u after run.
        rw (cancel_schedule_body-frame id now db after u run).0 (
          in-update_other (can_cancel id) (unlocked Status.cancelled now) db.publish_schedules
            spared m))
  spared-Stays (claims worker now expiry limit) spared =
      tx-keeps conn (claim_body worker now expiry limit) db Stays m (λ jobs after run.
        rw (claim_body-frame worker now expiry limit db after jobs run).0 (
          in-update_other (id_in (due_rows now limit db.publish_schedules))
            (lease worker expiry now) db.publish_schedules spared m))
  spared-Stays (completes job worker now) spared =
      tx-keeps conn (complete_body job worker now) db Stays m (λ b after run.
        rw (complete_body-frame job worker now db after b run).2 (
          in-update_other (holds job.schedule_id worker) (unlocked Status.done now)
            db.publish_schedules spared m))
  spared-Stays (fails id worker reason now) spared =
      tx-keeps conn (fail_body id worker reason now) db Stays m (λ u after run.
        rw (fail_body-frame id worker reason now db after u run).0 (
          in-update_other (holds id worker) (λ r. with_error reason (unlocked pending now r))
            db.publish_schedules spared m))
  spared-Stays (releases worker now) spared =
      tx-keeps conn (release_body worker now) db Stays m (λ n after run.
        rw (release_body-frame worker now db after n run).0
          (in-update_other (held_by worker) (unlocked pending now) db.publish_schedules spared m))
