-- ===== src/Store/Schedules/Late.antt =====
-- A worker that completes a job that another one has completed already.
use qdt_test.Common.{
  ℕ, Text, String, ◌≡◌, refl, true, err, inl, inr, count, any, count-in, in-any, ap, Bool-cases,
  ◌||◌, not, text_eq, ◌==◌,
}
use mathlib.Core.List.{Memᴰ}
use qdt_test.Store.Model.{
  Db, SqlError, Content, Version, unique, foreign_key, wrapped, Schedule, Status,
}
use qdt_test.Store.Tx.{healthy}
use qdt_test.Store.Tx.Rules.{tx-refused}
use qdt_test.Store.Statements.{set_published, insert_event}
use qdt_test.Store.Publish.{insert_event_tx}
use qdt_test.Store.Exactly.{Once, event_of}
use qdt_test.Store.Schedules.{
  ClaimedJob, complete_body, complete_scheduled_publish, forgive_lease_lost,
}

complete_body-late :
    (job : ClaimedJob) (worker : Text) (now : ℕ) (db : Db)
    → any (event_of job.schedule_id) db.publish_events ≡ true
    → (context : String) × (e : SqlError) × (complete_body job worker now db
        ≡ err (wrapped context e))
unfolding complete_body set_published insert_event_tx insert_event
complete_body-late job worker now db h =
    elim (Bool-cases (
      any (λ (v : Version). v.id == job.version_id) db.content_versions
      || not (any (λ (c : Content). text_eq c.id job.content_id) db.contents))) [
        | inl there ↦ rw (there, h) ("insert publish event", unique, refl)
        | inr missing ↦ rw missing ("set published version", foreign_key, refl)
      ]

-- A worker whose transaction begins after the schedule was completed has no effect, and is answered
-- by the error of a statement and not by false, where the queue and the audit trail agree as in
-- every database that a history builds.
pub late_completion_fails :
    (job : ClaimedJob) (worker : Text) (now : ℕ) (db : Db) (s : Schedule)
    → Once db
    → Memᴰ s db.publish_schedules
    → s.id ≡ job.schedule_id
    → s.status ≡ Status.done
    → (context : String) × (e : SqlError) × (complete_scheduled_publish healthy job worker now db
        ≡ (err (wrapped context e), db))
unfolding complete_scheduled_publish
late_completion_fails job worker now db s x m named finished =
    let one : count (event_of job.schedule_id) db.publish_events ≡ 1 =
      rw (named, finished) at (x.once s m) in
    let (e, k, h) = count-in (event_of job.schedule_id) db.publish_events (rw one refl) in
    let (context, refusal, run) =
      complete_body-late job worker now db
        (in-any e (event_of job.schedule_id) db.publish_events k h) in
    (
      context,
      refusal,
      ap (λ p. (forgive_lease_lost p.0, p.1))
          (tx-refused healthy (complete_body job worker now) db (wrapped context refusal) refl run),
    )
