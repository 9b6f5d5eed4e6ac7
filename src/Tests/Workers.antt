-- ===== src/Tests/Workers.antt =====
-- The theorems about the worker, each at one run.
use qdt_test.Common.{false, true, text_dec, sort, ◌≢◌, refl, [], ◌∷◌, some, none, ◌≡◌, count, arith}
use mathlib.Core.List.{Memᴰ}
use qdt_test.Store.Model.{Schedule, Status}
use qdt_test.Store.Tx.{tx, healthy}
use qdt_test.Store.Statements.{insert_content, insert_version_row, insert_schedule}
use qdt_test.Store.Contents.{create_content, update_content}
use qdt_test.Store.Publish.{check_owner}
use qdt_test.Store.Schedules.{create_schedule, claim_due_schedules, due_rows, release_claims}
use qdt_test.Store.History
use qdt_test.Store.History.{step, empty}
use qdt_test.Scheduler.Worker.{World, Worker, run, tick, shutdown}
use qdt_test.Scheduler.Worker.Progress.{due_is_published}
use qdt_test.Store.Exactly.{event_of}
use qdt_test.Store.History.Integrity.{Integrity, run-Integrity, empty-Integrity}
use qdt_test.Scheduler.Worker.Shutdown.{stopped_holds_nothing}
use qdt_test.Tests.{queue, page, timer, worker_1, worker_2, opening}

abbrev pub world : World
world = record { error_text = λ e. []; now = λ n. 105_000_000; conn = λ n. healthy }

abbrev pub second_worker : Worker
second_worker = record { id = worker_2; lease = 30_000_000; batch = 10; ticks = 0 }

abbrev claimed_row : Schedule
claimed_row = record {
  id = timer;
  content_id = page;
  version_id = 1;
  run_at = 100;
  status = Status.claimed;
  attempts = 1;
  locked_by = some worker_1;
  lock_expires_at = some 130;
  last_error = [];
  created_at = 30;
  updated_at = 100;
}

stopped_holds_nothing_example : claimed_row.locked_by ≢ some worker_2
unfolding run tick shutdown release_claims History.run step create_content update_content
    create_schedule claim_due_schedules due_rows tx insert_content insert_version_row
    insert_schedule text_dec sort check_owner
stopped_holds_nothing_example =
    stopped_holds_nothing second_worker (world ∷ []) world (History.run opening empty) claimed_row
      refl (Memᴰ.head refl) refl

pub queue_keeps : Integrity (History.run queue empty)
queue_keeps = run-Integrity queue empty (tt, (tt, (tt, (tt, tt)))) empty-Integrity

abbrev pub first_worker : Worker
first_worker = record second_worker { id = worker_1 }

abbrev waiting : Schedule
waiting = record claimed_row {
  status = Status.pending;
  attempts = 0;
  locked_by = none;
  lock_expires_at = none;
  updated_at = 30;
}

due_is_published_example :
    ((t : Schedule) × Memᴰ t
        (tick world 0 first_worker (History.run queue empty)).1.publish_schedules
      × (t.id ≡ timer)
      × (t.status ≡ Status.done))
    × (count (event_of timer) (tick world 0 first_worker (History.run queue empty)).1.publish_events
        ≡ 1)
unfolding History.run step create_content create_schedule due_rows tx insert_content
    insert_version_row insert_schedule text_dec sort check_owner
due_is_published_example =
    due_is_published world first_worker (History.run queue empty) waiting queue_keeps (λ k. refl)
      (Memᴰ.head refl) refl (omega arith)

abbrev pub failing : World
failing = record world { conn = λ n. record { begin_fails = false; commit_fails = true } }
