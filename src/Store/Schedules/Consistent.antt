-- ===== src/Store/Schedules/Consistent.antt =====
-- The operations on the queue keep contents and content_versions consistent: only a completion
-- touches them, and it moves a pointer.
use qdt_test.Common.{ℕ, Text, text_eq, some, Bool, true, ◌≡◌, refl, ok, arith, any, update}
use qdt_test.Store.Model.{Db}
use qdt_test.Store.Tx.{Conn, tx}
use qdt_test.Store.Tx.Rules.{tx-keeps}
use qdt_test.Store.Statements.{insert_event, insert_schedule, set_published, point_at}
use qdt_test.Store.Versioned.{Consistent, belongs}
use qdt_test.Store.Versioned.Point.{Versioned-point}
use qdt_test.Store.Schedules.{
  ClaimedJob, create_schedule, cancel_schedule, claim_due_schedules, complete_scheduled_publish,
  complete_body, fail_schedule, release_claims,
}

-- Neither table has changed, nor the sequence of version ids.
abbrev pub SameVersions : Db → Db → Type 0
SameVersions db after =
    (after.contents ≡ db.contents)
    × (after.content_versions ≡ db.content_versions)
    × (after.next_version_id ≡ db.next_version_id)

module _ (conn : Conn) (db : Db) where
  pub create_schedule-SameVersions :
      (id content_id : Text) (version_id run_at now : ℕ)
      → SameVersions db (create_schedule conn id content_id version_id run_at now db).1
  unfolding create_schedule tx insert_schedule
  create_schedule-SameVersions id content_id version_id run_at now = ground arith

  pub cancel_schedule-SameVersions :
      (id : Text) (now : ℕ) → SameVersions db (cancel_schedule conn id now db).1
  unfolding cancel_schedule tx
  cancel_schedule-SameVersions id now = ground arith

  pub claim_due_schedules-SameVersions :
      (worker : Text) (now expiry limit : ℕ)
      → SameVersions db (claim_due_schedules conn worker now expiry limit db).1
  unfolding claim_due_schedules tx
  claim_due_schedules-SameVersions worker now expiry limit = ground arith

  pub fail_schedule-SameVersions :
      (id worker reason : Text) (now : ℕ)
      → SameVersions db (fail_schedule conn id worker reason now db).1
  unfolding fail_schedule tx
  fail_schedule-SameVersions id worker reason now = ground arith

  pub release_claims-SameVersions :
      (worker : Text) (now : ℕ) → SameVersions db (release_claims conn worker now db).1
  unfolding release_claims tx
  release_claims-SameVersions worker now = ground arith

pub complete_body-rows :
    (job : ClaimedJob) (worker : Text) (now : ℕ) (db after : Db) (b : Bool)
    → complete_body job worker now db ≡ ok (b, after)
    → (after.contents
        ≡ update
            (λ c. text_eq c.id job.content_id)
            (point_at (some job.version_id) (some now) now)
            db.contents)
      × (after.content_versions ≡ db.content_versions)
      × (after.next_version_id ≡ db.next_version_id)
unfolding complete_body insert_event set_published
complete_body-rows job worker now db after b run = ground arith

pub complete_scheduled_publish-Consistent :
    (conn : Conn) (job : ClaimedJob) (worker : Text) (now : ℕ) (db : Db)
    → any (belongs job.version_id job.content_id) db.content_versions ≡ true
    → Consistent db
    → Consistent (complete_scheduled_publish conn job worker now db).1
unfolding complete_scheduled_publish
complete_scheduled_publish-Consistent conn job worker now db mine x =
    tx-keeps conn (complete_body job worker now) db Consistent x (λ b after run.
      let (rows, versions, next) = complete_body-rows job worker now db after b run in
      rw (rows, versions, next)
        (Versioned-point db.contents db.content_versions db.next_version_id job.content_id
          (some job.version_id) (some now) now refl (λ i e. ground arith) x))

pub complete_scheduled_publish-SameRows :
    (conn : Conn) (db : Db) (job : ClaimedJob) (worker : Text) (now : ℕ)
    → (complete_scheduled_publish conn job worker now db).1.content_versions ≡ db.content_versions
unfolding complete_scheduled_publish tx insert_event set_published
complete_scheduled_publish-SameRows conn db job worker now = ground arith
