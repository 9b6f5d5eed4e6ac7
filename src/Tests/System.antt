-- ===== src/Tests/System.antt =====
-- The theorems about all processes together, at one run.
use qdt_test.Common.{refl, text_dec, sort}
use mathlib.Core.List.{Memᴰ}
use qdt_test.Store.Tx.{tx}
use qdt_test.Store.Statements.{
  insert_content, insert_version_row, insert_schedule, insert_event, set_published,
}
use qdt_test.Store.Contents.{create_content, update_content}
use qdt_test.Store.Publish.{check_owner}
use qdt_test.Store.Schedules.{
  create_schedule, claim_due_schedules, due_rows, complete_scheduled_publish,
}
use qdt_test.Store.History.{run, step, empty}
use qdt_test.Store.History.Once.{run-Once, empty-Once}
use qdt_test.Store.History.Integrity.{Integrity}
use qdt_test.Store.History.Immutable.{Extends}
use qdt_test.System.{Turns, request, poll, stop, none, then, run_turns}
use qdt_test.System.Keeps.{run_turns-Integrity}
use qdt_test.System.Refines.{History, run_turns-History}
use qdt_test.System.Kept.{versions_append_only, closed_for_good}
use qdt_test.Tests.{story, queue, done_row}
use qdt_test.Tests.Routing.{first_fit, server, admission}
use qdt_test.Tests.Workers.{world, failing, first_worker, second_worker, queue_keeps}

-- A publish by hand during which one worker polls, a poll that fails during which another worker
-- takes what is due, and the stop of both.
abbrev shift : Turns
shift =
    then (request first_fit server admission (then (poll world first_worker (λ k. none)) none)) (
      then (poll failing first_worker (λ k. then (poll world second_worker (λ n. none)) none))
        (then (stop world first_worker) (then (stop failing second_worker) none)))

run_turns-Integrity_example : Integrity (run_turns shift (run queue empty))
run_turns-Integrity_example = run_turns-Integrity shift (run queue empty) queue_keeps

versions_append_only_example :
    Extends (run queue empty).content_versions (run_turns shift (run queue empty)).content_versions
versions_append_only_example = versions_append_only shift (run queue empty)

closed_for_good_example : Memᴰ done_row (run_turns shift (run story empty)).publish_schedules
unfolding run step create_content update_content create_schedule claim_due_schedules
    complete_scheduled_publish due_rows tx insert_content insert_version_row insert_schedule
    insert_event set_published text_dec sort check_owner
closed_for_good_example =
    closed_for_good shift (run story empty) done_row (run-Once story empty empty-Once) refl
      (Memᴰ.head refl)

run_turns-History_example : History (run queue empty) (run_turns shift (run queue empty))
run_turns-History_example = run_turns-History shift (run queue empty)
