-- ===== src/Store/Schedules/Ready.antt =====
-- A claimed schedule from its claim to its completion.
use qdt_test.Common.{
  ℕ, Text, text_eq, text_eq_refl, ◌==◌, ◌≡◌, refl, some, true, false, List, ok, any, count, update,
  in-update_other, in-update_hit, any-update, count-zero, any-in, ◌∙◌, suc, ◌++◌, ◌∷◌, [],
  Bool-cases, inl, inr,
}
use mathlib.Core.List.{Memᴰ}
use qdt_test.Store.Model.{Db, Content, Schedule, claimed, done, pending}
use qdt_test.Store.Tx.{Conn, healthy}
use qdt_test.Store.Tx.Rules.{tx-keeps, tx-ok}
use qdt_test.Store.Exactly.{Once, event_of}
use qdt_test.Store.Statements.{has_content, has_version, insert_event, set_published, point_at}
use qdt_test.Store.Publish.{insert_event_tx}
use qdt_test.Store.Schedules.{
  ClaimedJob, job_of, job_event, holds, unlocked, with_error, complete_body,
  complete_scheduled_publish, fail_schedule, fail_body,
}
use qdt_test.Store.Schedules.Once.{
  complete_body-frame, fail_body-frame, complete_scheduled_publish-Once, fail_schedule-Once,
}
use qdt_test.Store.Schedules.Consistent.{complete_body-rows, fail_schedule-SameVersions}

-- What the completion of a schedule relies on.
pub record Ready (s : Schedule) (db : Db) : Type 0 where
  pub once : Once db
  pub version : has_version s.version_id db ≡ true
  pub content : has_content s.content_id db ≡ true

-- A row that is held by a worker.
pub record Held (worker : Text) (s : Schedule) (db : Db) : Type 0 where
  pub row : Memᴰ s db.publish_schedules
  pub status : s.status ≡ claimed
  pub locked : s.locked_by ≡ some worker

has_content-point :
    (id content_id : Text) (v at now : ℕ) (rows : List Content)
    → any
        (λ c. text_eq c.id content_id)
        (update (λ c. text_eq c.id id) (point_at (some v) (some at) now) rows)
      ≡ any (λ c. text_eq c.id content_id) rows
has_content-point id content_id v at now rows =
    any-update (λ (c : Content). text_eq c.id content_id) (λ c. text_eq c.id id)
      (point_at (some v) (some at) now) rows (λ c. refl)

module _ (conn : Conn) (job : ClaimedJob) (worker : Text) (now : ℕ) (db : Db) (s : Schedule) where
  pub complete-Ready : Ready s db → Ready s (complete_scheduled_publish conn job worker now db).1
  unfolding complete_scheduled_publish
  complete-Ready r = record {
    once = complete_scheduled_publish-Once conn job worker now db r.once;
    version =
        tx-keeps conn (complete_body job worker now) db (λ d. has_version s.version_id d ≡ true)
          r.version
          (λ b after run. rw (complete_body-rows job worker now db after b run).1 r.version);
    content =
        tx-keeps conn (complete_body job worker now) db (λ d. has_content s.content_id d ≡ true)
          r.content
          (λ b after run.
            rw
              (
                (complete_body-rows job worker now db after b run).0,
                has_content-point job.content_id s.content_id job.version_id now now db.contents,
              )
              r.content);
  }

  pub fail-Ready :
      (reason : Text)
      → Ready s db
      → Ready s (fail_schedule conn job.schedule_id worker reason now db).1
  fail-Ready reason r =
      let (contents, versions, _) =
        fail_schedule-SameVersions conn db job.schedule_id worker reason now in
      record {
        once = fail_schedule-Once conn job.schedule_id worker reason now db r.once;
        version = rw versions r.version;
        content = rw contents r.content;
      }

  -- A row that the job does not hold is left.
  pub in-complete :
      holds job.schedule_id worker s ≡ false
      → Memᴰ s db.publish_schedules
      → Memᴰ s (complete_scheduled_publish conn job worker now db).1.publish_schedules
  unfolding complete_scheduled_publish
  in-complete miss m =
      tx-keeps conn (complete_body job worker now) db (λ d. Memᴰ s d.publish_schedules) m
        (λ b after run.
          let (_, _, rows, _) = complete_body-frame job worker now db after b run in
          rw rows (
            in-update_other (holds job.schedule_id worker) (unlocked done now) db.publish_schedules
              miss m))

  pub in-fail :
      (reason : Text)
      → holds job.schedule_id worker s ≡ false
      → Memᴰ s db.publish_schedules
      → Memᴰ s (fail_schedule conn job.schedule_id worker reason now db).1.publish_schedules
  unfolding fail_schedule
  in-fail reason miss m =
      tx-keeps conn (fail_body job.schedule_id worker reason now) db
        (λ d. Memᴰ s d.publish_schedules) m
        (λ b after run.
          let (rows, _) = fail_body-frame job.schedule_id worker reason now db after b run in
          rw rows (
            in-update_other (holds job.schedule_id worker)
              (λ r. with_error reason (unlocked pending now r)) db.publish_schedules miss m))

module _ (worker : Text) (now : ℕ) (db : Db) (s : Schedule) (r : Ready s db)
    (h : Held worker s db) where
  hit : holds s.id worker s ≡ true
  hit = rw (h.status, h.locked, text_eq_refl s.id, text_eq_refl worker) refl

  held_count : (count (holds s.id worker) db.publish_schedules == 0) ≡ false
  held_count = elim (Bool-cases (count (holds s.id worker) db.publish_schedules == 0)) [
    | inl gone ↦
        let miss = count-zero s (holds s.id worker) db.publish_schedules gone h.row in
        absurd (cc (miss, hit))
    | inr kept ↦ kept
  ]

  no_event : any (event_of s.id) db.publish_events ≡ false
  no_event = elim (Bool-cases (any (event_of s.id) db.publish_events)) [
    | inl there ↦
        let (e, m, named) = any-in (event_of s.id) db.publish_events there in
        let zero : count (event_of s.id) db.publish_events ≡ 0 =
          r.once.once s h.row ∙ (rw h.status refl) in
        absurd (cc (count-zero e (event_of s.id) db.publish_events (rw zero refl) m, named))
    | inr missing ↦ missing
  ]

  -- The completion of a job that the worker holds succeeds, and the row is done.
  complete_body-held :
      (after : Db) × (complete_body (job_of s) worker now db ≡ ok (true, after))
      × Memᴰ (unlocked done now s) after.publish_schedules
  unfolding complete_body insert_event_tx insert_event set_published
  complete_body-held = (
    record db {
      contents =
          update (λ c. text_eq c.id s.content_id) (point_at (some s.version_id) (some now) now)
            db.contents;
      publish_schedules = update (holds s.id worker) (unlocked done now) db.publish_schedules;
      publish_events = db.publish_events ++ job_event (job_of s) now db ∷ [];
      next_event_id = suc db.next_event_id;
    },
    rw
        (
          r.version,
          no_event,
          has_content-point s.content_id s.content_id s.version_id now now db.contents,
          r.content,
          r.version,
          held_count,
        )
        refl,
    in-update_hit (holds s.id worker) (unlocked done now) db.publish_schedules hit h.row,
  )

  pub complete_held_row :
      (after : Db) × (complete_scheduled_publish healthy (job_of s) worker now db
        ≡ (ok true, after))
      × Memᴰ (unlocked done now s) after.publish_schedules
  unfolding complete_scheduled_publish
  complete_held_row =
      let (after, run, row) = complete_body-held in
      (
        after,
        rw (tx-ok healthy (complete_body (job_of s) worker now) db true after refl refl run) refl,
        row,
      )
