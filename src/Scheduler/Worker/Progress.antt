-- ===== src/Scheduler/Worker/Progress.antt =====
-- What one poll of the worker completes.
use qdt_test.Common.{
  ℕ, ◌+◌, ◌≤◌, Text, text_eq, text_eq_refl, ◌≡◌, refl, sym, ap, ◌∙◌, Bool, true, List, map, ok,
  arith, count, select, any-in, in-any, in-update_hit, in-select, in-sort, in-take, length-sort,
  length-select, select-in, Apart-eq, sort, ◌==◌,
}
use mathlib.Core.List.{Memᴰ}
use mathlib.Core.List.Memᴰ
use qdt_test.Store.Model.{Db, Schedule, Version, done}
use qdt_test.Store.Tx.{healthy, tx}
use qdt_test.Store.Exactly.{Once, SameId, event_of}
use qdt_test.Store.Versioned.{belongs}
use qdt_test.Store.History.Integrity.{Integrity}
use qdt_test.Store.Schedules.{
  ClaimedJob, job_of, lease, is_due, by_run_at, due_rows, id_in, claim_due_schedules,
}
use qdt_test.Store.Schedules.Once.{claim_due_schedules-Once}
use qdt_test.Store.Schedules.Consistent.{claim_due_schedules-SameVersions}
use qdt_test.Store.Schedules.Ready.{Ready, Held}
use qdt_test.Scheduler.Worker.Jobs.{execute_all-done}
use qdt_test.Scheduler.Worker.{World, Worker, to_millis, run_claimed, tick}

-- The due rows are all chosen, if the batch is not smaller than their number.
due-chosen :
    (now limit : ℕ) (rows : List Schedule) (s : Schedule)
    → Memᴰ s rows
    → is_due now s ≡ true
    → count (is_due now) rows ≤ limit
    → id_in (due_rows now limit rows) s ≡ true
unfolding due_rows
due-chosen now limit rows s m due short =
    in-any s (λ (r : Schedule). text_eq r.id s.id) (due_rows now limit rows)
      (in-take limit (sort by_run_at (select (is_due now) rows))
        (omega (
          arith,
          length-sort by_run_at (select (is_due now) rows),
          length-select (is_due now) rows,
          short,
        ))
        (in-sort by_run_at (select (is_due now) rows) (in-select (is_due now) rows m due)))
      (text_eq_refl s.id)

-- A schedule of the queue can be completed.
Integrity-Ready : (db : Db) (s : Schedule) → Integrity db → Memᴰ s db.publish_schedules → Ready s db
Integrity-Ready db s v m =
    let (x, k, h) =
      any-in (belongs s.version_id s.content_id) db.content_versions (v.in_order.targets s m) in
    let owner : x.content_id ≡ s.content_id = ground arith in
    record {
      once = v.exactly_once;
      version =
          in-any x (λ (y : Version). y.id == s.version_id) db.content_versions k (ground arith);
      content = rw owner at (v.consistent.owned x k);
    }

module _ (worker : Text) (now expiry limit : ℕ) (db : Db) where
  chosen : Schedule → Bool
  chosen = id_in (due_rows now limit db.publish_schedules)

  after_claim : Db
  after_claim = (claim_due_schedules healthy worker now expiry limit db).1

  jobs_claimed : List ClaimedJob
  unfolding chosen
  jobs_claimed = map job_of (select chosen db.publish_schedules)

  claim_answer :
      claim_due_schedules healthy worker now expiry limit db ≡ (ok jobs_claimed, after_claim)
  unfolding claim_due_schedules tx chosen jobs_claimed after_claim
  claim_answer = refl

  after_claim-Ready : (s : Schedule) → Ready s db → Ready (lease worker expiry now s) after_claim
  unfolding after_claim
  after_claim-Ready s r =
      let (contents, versions, _) =
        claim_due_schedules-SameVersions healthy db worker now expiry limit in
      record {
        once = claim_due_schedules-Once healthy worker now expiry limit db r.once;
        version = rw versions r.version;
        content = rw contents r.content;
      }

  after_claim-Held :
      (s : Schedule)
      → Memᴰ s db.publish_schedules
      → chosen s ≡ true
      → Held worker (lease worker expiry now s) after_claim
  unfolding after_claim claim_due_schedules tx chosen
  after_claim-Held s m hit = record {
    row = in-update_hit chosen (lease worker expiry now) db.publish_schedules hit m;
    status = refl;
    locked = refl;
  }

  only_job :
      (s : Schedule)
      → Once db
      → Memᴰ s db.publish_schedules
      → (j : ClaimedJob) → Memᴰ j jobs_claimed
      → j.schedule_id ≡ s.id
      → j ≡ job_of s
  unfolding jobs_claimed
  only_job s x m j k same =
      let (t, in_chosen, e) = Memᴰ.of_map job_of (select chosen db.publish_schedules) k in
      let (in_rows, _) = select-in t chosen db.publish_schedules in_chosen in
      let one : t ≡ s =
        Apart-eq SameId db.publish_schedules x.ids (λ a b c. sym c) in_rows m
          (ap (λ (i : ClaimedJob). i.schedule_id) e ∙ same) in
      sym e ∙ ap job_of one

  in-jobs_claimed :
      (s : Schedule) → Memᴰ s db.publish_schedules → chosen s ≡ true → Memᴰ (job_of s) jobs_claimed
  unfolding jobs_claimed
  in-jobs_claimed s m hit = Memᴰ.map job_of (in-select chosen db.publish_schedules m hit)

-- One poll publishes what is due: in tables that have their integrity, and while the transactions go
-- through, every schedule that is due at the poll's reading of the clock is done after it and has
-- exactly one publish event, if the batch is not smaller than the number of the schedules that are
-- due.
pub due_is_published :
    (w : World) (worker : Worker) (db : Db) (s : Schedule)
    → Integrity db
    → ((k : ℕ) → w.conn k ≡ healthy)
    → Memᴰ s db.publish_schedules
    → is_due (to_millis (w.now 0)) s ≡ true
    → count (is_due (to_millis (w.now 0))) db.publish_schedules ≤ worker.batch
    → let after = (tick w 0 worker db).1 in
      ((t : Schedule) × Memᴰ t after.publish_schedules × (t.id ≡ s.id) × (t.status ≡ done))
      × (count (event_of s.id) after.publish_events ≡ 1)
unfolding tick run_claimed chosen
due_is_published w worker db s v fine m due short =
    let now = to_millis (w.now 0) in
    let expiry = to_millis (w.now 1 + worker.lease) in
    let hit = due-chosen now worker.batch db.publish_schedules s m due short in
    let (closed, ready) =
      execute_all-done w worker (lease worker.id expiry now s)
        (jobs_claimed worker.id now expiry worker.batch db) 2
        (after_claim worker.id now expiry worker.batch db) fine
        (only_job worker.id now expiry worker.batch db s v.exactly_once m)
        (in-jobs_claimed worker.id now expiry worker.batch db s m hit)
        (after_claim-Ready worker.id now expiry worker.batch db s (Integrity-Ready db s v m))
        (after_claim-Held worker.id now expiry worker.batch db s m hit) in
    let (t, k, named, finished) = closed in
    let once = ready.once.once t k in
    rw (fine 0, claim_answer worker.id now expiry worker.batch db)
      (closed, rw (named, finished) at once)
