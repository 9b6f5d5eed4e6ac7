-- ===== src/Store/Schedules/Complete.antt =====
-- CompleteScheduledPublish: all of the publish, or nothing of it.
use qdt_test.Common.{ℕ, Text, ◌≡◌, ◌≢◌, Bool, true, ok, err, inl, inr, arith}
use qdt_test.Store.Model.{Db, Error}
use qdt_test.Store.Tx.{Conn}
use qdt_test.Store.Tx.Rules.{tx-Outcome}
use qdt_test.Store.Statements.{insert_event, set_published}
use qdt_test.Store.Schedules.{
  ClaimedJob, complete_scheduled_publish, complete_body, forgive_lease_lost,
}

complete_body-true :
    (job : ClaimedJob) (worker : Text) (now : ℕ) (db after : Db) (b : Bool)
    → complete_body job worker now db ≡ ok (b, after)
    → b ≡ true
unfolding complete_body insert_event set_published
complete_body-true job worker now db after b run = ground arith

forgive-ne-true : (e : Error) → forgive_lease_lost (err e) ≢ ok true
forgive-ne-true e h = ground arith

module _ (conn : Conn) (job : ClaimedJob) (worker : Text) (now : ℕ) (db : Db) where
  -- Unless the answer is `true`, nothing is written.
  pub complete_refused :
      (complete_scheduled_publish conn job worker now db).0 ≢ ok true
      → (complete_scheduled_publish conn job worker now db).1 ≡ db
  unfolding complete_scheduled_publish
  complete_refused refused = elim (tx-Outcome conn (complete_body job worker now) db) [
    | inl (b, after, run, out) ↦
        absurd (refused (rw (out, complete_body-true job worker now db after b run)))
    | inr (e, out) ↦ rw out
  ]

  -- `true` is answered only by the run that found the schedule under the worker's lease.
  pub complete_held :
      (complete_scheduled_publish conn job worker now db).0 ≡ ok true
      → (after : Db) × (complete_body job worker now db ≡ ok (true, after))
        × ((complete_scheduled_publish conn job worker now db).1 ≡ after)
  unfolding complete_scheduled_publish
  complete_held done = elim (tx-Outcome conn (complete_body job worker now) db) [
    | inl (b, after, run, out) ↦
        let yes_true = complete_body-true job worker now db after b run in
        (after, rw yes_true at run, rw out)
    | inr (e, out) ↦ absurd (forgive-ne-true e (rw out at done))
  ]
