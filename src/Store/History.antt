-- ===== src/Store/History.antt =====
-- Any history of the calls that the program makes: `Publish` is called by the domain layer alone, by
-- hand and without a schedule. Every write goes through one connection, so the transactions of all
-- requests and of all workers are a sequence of calls, each with the driver's answers to it.
pub mod Row
pub mod Terminal
pub mod Exclusive
pub mod Immutable
pub mod Once
pub mod Integrity
pub mod Honest
pub mod Atomic
use qdt_test.Common.{ℕ, Text, Bool, true, false, none, List, [], ◌∷◌, Result, ok, err}
use qdt_test.Store.Model.{Db, Error, VersionFields, manual, lease_lost}
use qdt_test.Store.Tx.{Conn}
use qdt_test.Store.Contents.{create_content, update_content}
use qdt_test.Store.Publish.{PublishParams, publish, unpublish}
use qdt_test.Store.Schedules.{
  ClaimedJob, create_schedule, cancel_schedule, claim_due_schedules, complete_scheduled_publish,
  fail_schedule, release_claims,
}

pub data Call : Type 0 where
  creates : (id slug : Text) → VersionFields → (actor : Text) → (now : ℕ) → Call
  updates : (id : Text) → (expected : ℕ) → VersionFields → (actor : Text) → (now : ℕ) → Call
  publishes : (id : Text) → (version_id : ℕ) → (actor : Text) → (now : ℕ) → Call
  unpublishes : (id actor : Text) → (now : ℕ) → Call
  schedules : (id content_id : Text) → (version_id run_at now : ℕ) → Call
  cancels : (id : Text) → (now : ℕ) → Call
  claims : (worker : Text) → (now expiry limit : ℕ) → Call
  completes : ClaimedJob → (worker : Text) → (now : ℕ) → Call
  fails : (id worker reason : Text) → (now : ℕ) → Call
  releases : (worker : Text) → (now : ℕ) → Call

-- The parameters that the domain layer's `Publish` passes on.
abbrev pub by_hand : Text → ℕ → Text → ℕ → PublishParams
by_hand id version_id actor now = record {
  content_id = id;
  version_id = version_id;
  source = manual;
  actor = actor;
  schedule_id = none;
  now = now;
}

abbrev pub outcome : {A : Type 0} → Result Error A → Result Error (Unit {0})
outcome (ok a) = ok tt
outcome (err e) = err e

-- Losing the lease is the one refusal that is no error.
abbrev pub completion : Result Error Bool → Result Error (Unit {0})
completion (ok true) = ok tt
completion (ok false) = err lease_lost
completion (err e) = err e

module _ (conn : Conn) where
  -- What a call answers, without the value that it returns.
  unfoldable pub answer : Call → Db → Result Error (Unit {0})
  answer (creates id slug f actor now) db = outcome (create_content conn id slug f actor now db).0
  answer (updates id expected f actor now) db =
      outcome (update_content conn id expected f actor now db).0
  answer (publishes id version_id actor now) db =
      outcome (publish conn (by_hand id version_id actor now) db).0
  answer (unpublishes id actor now) db = outcome (unpublish conn id actor now db).0
  answer (schedules id content_id version_id run_at now) db =
      outcome (create_schedule conn id content_id version_id run_at now db).0
  answer (cancels id now) db = (cancel_schedule conn id now db).0
  answer (claims worker now expiry limit) db =
      outcome (claim_due_schedules conn worker now expiry limit db).0
  answer (completes job worker now) db =
      completion (complete_scheduled_publish conn job worker now db).0
  answer (fails id worker reason now) db = (fail_schedule conn id worker reason now db).0
  answer (releases worker now) db = outcome (release_claims conn worker now db).0

  unfoldable pub step : Call → Db → Db
  step (creates id slug f actor now) db = (create_content conn id slug f actor now db).1
  step (updates id expected f actor now) db = (update_content conn id expected f actor now db).1
  step (publishes id version_id actor now) db =
      (publish conn (by_hand id version_id actor now) db).1
  step (unpublishes id actor now) db = (unpublish conn id actor now db).1
  step (schedules id content_id version_id run_at now) db =
      (create_schedule conn id content_id version_id run_at now db).1
  step (cancels id now) db = (cancel_schedule conn id now db).1
  step (claims worker now expiry limit) db = (claim_due_schedules conn worker now expiry limit db).1
  step (completes job worker now) db = (complete_scheduled_publish conn job worker now db).1
  step (fails id worker reason now) db = (fail_schedule conn id worker reason now db).1
  step (releases worker now) db = (release_claims conn worker now db).1

-- The last call is done last.
unfoldable pub run : List (Conn × Call) → Db → Db
run [] db = db
run ((conn, c) ∷ cs) db = run cs (step conn c db)

-- What the migration creates.
abbrev pub empty : Db
empty = record {
  contents = [];
  content_versions = [];
  publish_schedules = [];
  publish_events = [];
  next_version_id = 1;
  next_event_id = 1;
}
