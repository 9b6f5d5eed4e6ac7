-- ===== src/Store/History/Integrity.antt =====
-- Histories of internal/store: what the four tables say of one another.
use qdt_test.Common.{text_eq, ◌==◌, ◌&&◌, ◌≡◌, true, List, [], ◌∷◌, any, any-in, arith, Bool}
use qdt_test.Store.Model.{Db, Schedule}
use qdt_test.Store.Tx.{Conn}
use qdt_test.Store.Exactly.{Once}
use qdt_test.Store.Versioned.{Consistent, belongs}
use qdt_test.Store.Queued.{InOrder}
use qdt_test.Store.Contents.Consistent.{create_content-Consistent, update_content-Consistent}
use qdt_test.Store.Contents.InOrder.{create_content-InOrder, update_content-InOrder}
use qdt_test.Store.Publish.Consistent.{publish-Consistent, unpublish-Consistent}
use qdt_test.Store.Publish.InOrder.{publish-InOrder, unpublish-InOrder}
use qdt_test.Store.Schedules.{ClaimedJob}
use qdt_test.Store.Schedules.Consistent.{
  SameVersions, create_schedule-SameVersions, cancel_schedule-SameVersions,
  claim_due_schedules-SameVersions, complete_scheduled_publish-Consistent,
  fail_schedule-SameVersions, release_claims-SameVersions,
}
use qdt_test.Store.Schedules.InOrder.{
  create_schedule-InOrder, cancel_schedule-InOrder, claim_due_schedules-InOrder,
  complete_scheduled_publish-InOrder, fail_schedule-InOrder, release_claims-InOrder,
}
use qdt_test.Store.History.Once.{step-Once, empty-Once}
use qdt_test.Store.History.{
  Call, creates, updates, publishes, unpublishes, schedules, cancels, claims, completes, fails,
  releases, by_hand, step, run, empty,
}

-- A job names the content and the version of its schedule, as those that a claim returns do.
abbrev pub is_job_of : ClaimedJob → Schedule → Bool
is_job_of job s =
    text_eq s.id job.schedule_id
    && (text_eq s.content_id job.content_id && s.version_id == job.version_id)

abbrev pub IsHonest : Call → Db → Type 0
IsHonest (completes job worker now) db = any (is_job_of job) db.publish_schedules ≡ true
IsHonest _ db = Unit {0}

abbrev pub IsHonestRun : List (Conn × Call) → Db → Type 0
IsHonestRun [] db = Unit {0}
IsHonestRun ((conn, c) ∷ cs) db = IsHonest c db × IsHonestRun cs (step conn c db)

pub record Integrity (db : Db) : Type 0 where
  pub consistent : Consistent db
  pub in_order : InOrder db
  pub exactly_once : Once db

SameVersions-Consistent : (db after : Db) → SameVersions db after → Consistent db → Consistent after
SameVersions-Consistent db after (rows, versions, next) x = rw (rows, versions, next) x

job-belongs :
    (job : ClaimedJob) (db : Db)
    → InOrder db
    → any (is_job_of job) db.publish_schedules ≡ true
    → any (belongs job.version_id job.content_id) db.content_versions ≡ true
job-belongs job db q honest =
    let (s, m, h) = any-in (is_job_of job) db.publish_schedules honest in
    let version : s.version_id ≡ job.version_id = ground arith in
    let content : s.content_id ≡ job.content_id = ground arith in
    rw (← version, ← content) (q.targets s m)

step-Consistent :
    (conn : Conn) (c : Call) (db : Db)
    → IsHonest c db
    → InOrder db
    → Consistent db
    → Consistent (step conn c db)
unfolding step
step-Consistent conn (creates id slug f actor now) db h q x =
    create_content-Consistent conn id slug f actor now db x
step-Consistent conn (updates id expected f actor now) db h q x =
    update_content-Consistent conn id expected f actor now db x
step-Consistent conn (publishes id version_id actor now) db h q x =
    publish-Consistent conn (by_hand id version_id actor now) db x
step-Consistent conn (unpublishes id actor now) db h q x =
    unpublish-Consistent conn id actor now db x
step-Consistent conn (schedules id content_id version_id run_at now) db h q x =
    SameVersions-Consistent db (step conn (schedules id content_id version_id run_at now) db)
      (create_schedule-SameVersions conn db id content_id version_id run_at now) x
step-Consistent conn (cancels id now) db h q x =
    SameVersions-Consistent db (step conn (cancels id now) db)
      (cancel_schedule-SameVersions conn db id now) x
step-Consistent conn (claims worker now expiry limit) db h q x =
    SameVersions-Consistent db (step conn (claims worker now expiry limit) db)
      (claim_due_schedules-SameVersions conn db worker now expiry limit) x
step-Consistent conn (completes job worker now) db h q x =
    complete_scheduled_publish-Consistent conn job worker now db (job-belongs job db q h) x
step-Consistent conn (fails id worker reason now) db h q x =
    SameVersions-Consistent db (step conn (fails id worker reason now) db)
      (fail_schedule-SameVersions conn db id worker reason now) x
step-Consistent conn (releases worker now) db h q x =
    SameVersions-Consistent db (step conn (releases worker now) db)
      (release_claims-SameVersions conn db worker now) x

step-InOrder : (conn : Conn) (c : Call) (db : Db) → Once db → InOrder db → InOrder (step conn c db)
unfolding step
step-InOrder conn (creates id slug f actor now) db x q =
    create_content-InOrder conn id f actor now db slug q
step-InOrder conn (updates id expected f actor now) db x q =
    update_content-InOrder conn id f actor now db expected q
step-InOrder conn (publishes id version_id actor now) db x q =
    publish-InOrder conn db (by_hand id version_id actor now) q
step-InOrder conn (unpublishes id actor now) db x q = unpublish-InOrder conn db id actor now q
step-InOrder conn (schedules id content_id version_id run_at now) db x q =
    create_schedule-InOrder conn id content_id version_id run_at now db q
step-InOrder conn (cancels id now) db x q = cancel_schedule-InOrder conn now db q id
step-InOrder conn (claims worker now expiry limit) db x q =
    claim_due_schedules-InOrder conn now db q worker expiry limit x
step-InOrder conn (completes job worker now) db x q =
    complete_scheduled_publish-InOrder conn now db q job worker
step-InOrder conn (fails id worker reason now) db x q =
    fail_schedule-InOrder conn now db q id worker reason
step-InOrder conn (releases worker now) db x q = release_claims-InOrder conn now db q worker

-- Every store call keeps the integrity of the tables, where a completed job is its schedule's: ids,
-- slugs and version numbers stay unique, every content has its current version and none above it, a
-- published pointer names a version of its own content, a content has at most one active schedule,
-- a lease is held on exactly the claimed ones, a schedule's target is a version of its content, and
-- events and completed schedules correspond one to one.
pub step-Integrity :
    (conn : Conn) (c : Call) (db : Db) → IsHonest c db → Integrity db → Integrity (step conn c db)
step-Integrity conn c db h v = record {
  consistent = step-Consistent conn c db h v.in_order v.consistent;
  in_order = step-InOrder conn c db v.exactly_once v.in_order;
  exactly_once = step-Once conn c db v.exactly_once;
}

pub empty-Integrity : Integrity empty
empty-Integrity = record {
  consistent = record {
    content_ids = tt;
    slugs = tt;
    rows = tt;
    numbers = tt;
    below_next = λ v m. elim m [ ];
    owned = λ v m. elim m [ ];
    newest = λ c v m n e. elim m [ ];
    current = λ c m. elim m [ ];
    pointer = λ c id m e. elim m [ ];
    stamped = λ c m. elim m [ ];
  };
  in_order = record { active = tt; leases = λ s m. elim m [ ]; targets = λ s m. elim m [ ] };
  exactly_once = empty-Once;
}

pub run-Integrity :
    (cs : List (Conn × Call)) (db : Db) → IsHonestRun cs db → Integrity db → Integrity (run cs db)
unfolding run
run-Integrity [] db h v = v
run-Integrity ((conn, c) ∷ cs) db (h, hs) v =
    run-Integrity cs (step conn c db) hs (step-Integrity conn c db h v)
