-- ===== src/Store/History/Once.antt =====
-- Histories of internal/store: schedules and the audit events that name them.
use qdt_test.Common.{◌≡◌, refl, List, [], ◌∷◌, count, if◌then◌else◌}
use mathlib.Core.List.{Memᴰ}
use qdt_test.Store.Model.{Db, Schedule}
use qdt_test.Store.Tx.{Conn}
use qdt_test.Store.Statements.{is_done}
use qdt_test.Store.Exactly.{Once, event_of}
use qdt_test.Store.Contents.Frame.{create_content-frame, update_content-frame}
use qdt_test.Store.Publish.Once.{publish-Once, unpublish-Once}
use qdt_test.Store.Schedules.Once.{
  create_schedule-Once, cancel_schedule-Once, claim_due_schedules-Once,
  complete_scheduled_publish-Once, fail_schedule-Once, release_claims-Once,
}
use qdt_test.Store.History.{
  Call, creates, updates, publishes, unpublishes, schedules, cancels, claims, completes, fails,
  releases, by_hand, step, run, empty,
}

pub step-Once : (conn : Conn) (c : Call) (db : Db) → Once db → Once (step conn c db)
unfolding step
step-Once conn (creates id slug f actor now) db x =
    let (rows, events) = create_content-frame conn id f actor now db slug in rw (rows, events) x
step-Once conn (updates id expected f actor now) db x =
    let (rows, events) = update_content-frame conn id f actor now db expected in rw (rows, events) x
step-Once conn (publishes id version_id actor now) db x =
    publish-Once conn (by_hand id version_id actor now) db refl x
step-Once conn (unpublishes id actor now) db x = unpublish-Once conn id actor now db x
step-Once conn (schedules id content_id version_id run_at now) db x =
    create_schedule-Once conn id content_id version_id run_at now db x
step-Once conn (cancels id now) db x = cancel_schedule-Once conn id now db x
step-Once conn (claims worker now expiry limit) db x =
    claim_due_schedules-Once conn worker now expiry limit db x
step-Once conn (completes job worker now) db x =
    complete_scheduled_publish-Once conn job worker now db x
step-Once conn (fails id worker reason now) db x = fail_schedule-Once conn id worker reason now db x
step-Once conn (releases worker now) db x = release_claims-Once conn worker now db x

pub run-Once : (cs : List (Conn × Call)) (db : Db) → Once db → Once (run cs db)
unfolding run
run-Once [] db x = x
run-Once ((conn, c) ∷ cs) db x = run-Once cs (step conn c db) (step-Once conn c db x)

pub empty-Once : Once empty
empty-Once = record { ids = tt; once = λ s m. elim m [ ]; known = λ e id m h. elim m [ ] }

-- After any sequence of store calls from the empty database, in which a publish by hand names no
-- schedule as the domain layer's names none, whatever the driver answers to each
-- BEGIN and COMMIT, a schedule that is done has exactly one publish event that names it, and a
-- schedule in any other state has none.
pub scheduled_exactly_once :
    (cs : List (Conn × Call)) (s : Schedule)
    → Memᴰ s (run cs empty).publish_schedules
    → count (event_of s.id) (run cs empty).publish_events ≡ (if is_done s.status then 1 else 0)
scheduled_exactly_once cs = (run-Once cs empty empty-Once).once
