-- ===== src/Tests/History.antt =====
-- The theorems about histories, at one history.
use qdt_test.Common.{text_dec, count, sort, ◌≡◌, refl}
use mathlib.Core.List.{Memᴰ}
use qdt_test.Store.Tx.{tx}
use qdt_test.Store.Statements.{
  insert_content, insert_version_row, insert_schedule, insert_event, set_published,
}
use qdt_test.Store.Contents.{create_content, update_content}
use qdt_test.Store.Publish.{check_owner}
use qdt_test.Store.Schedules.{
  create_schedule, claim_due_schedules, due_rows, complete_scheduled_publish,
}
use qdt_test.Store.Exactly.{event_of}
use qdt_test.Store.History.{run, step, empty}
use qdt_test.Store.History.Once.{scheduled_exactly_once}
use qdt_test.Tests.{timer, story, done_row}

story_done : Memᴰ done_row (run story empty).publish_schedules
unfolding run step create_content update_content create_schedule claim_due_schedules
    complete_scheduled_publish due_rows tx insert_content insert_version_row insert_schedule
    insert_event set_published text_dec sort check_owner
story_done = Memᴰ.head refl

scheduled_exactly_once_example : count (event_of timer) (run story empty).publish_events ≡ 1
scheduled_exactly_once_example = scheduled_exactly_once story done_row story_done
