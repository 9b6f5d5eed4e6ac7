-- ===== src/Tests/Store.antt =====
-- The theorems about the store, each at concrete inputs.
use qdt_test.Common.{
  String, List, ap, Option, Text, some, ℕ, ◌⊎◌, ◌≤◌, text_dec, sort, ◌≡◌, ◌≢◌, refl, [], ◌∷◌, ok,
  err, none, true, codes, arith,
}
use mathlib.Core.List.{Memᴰ}
use qdt_test.Store.Model.{
  SqlError, wrapped, Status, Schedule, Content, not_cancellable, version_conflict, not_found,
}
use qdt_test.Store.Tx.{Conn, tx, healthy}
use qdt_test.Store.Statements.{
  insert_content, insert_version_row, insert_schedule, insert_event, set_published, version_row,
}
use qdt_test.Store.Contents.{create_content, update_content}
use qdt_test.Store.Contents.Token.{one_writer_wins}
use qdt_test.Store.Publish.{check_owner, publish}
use qdt_test.Store.Schedules.{
  create_schedule, cancel_schedule, claim_due_schedules, fail_schedule, release_claims, due_rows,
  job_of, complete_scheduled_publish,
}
use qdt_test.Store.Schedules.Late.{late_completion_fails}
use qdt_test.Store.Schedules.Leases.{no_lease_no_effect}
use qdt_test.Store.History.Exclusive.{claims_exclusive}
use qdt_test.Store.Public.{get_public_by_slug, list_public, public_rows}
use qdt_test.Store.Public.Sound.{
  IsPublished, get_public_by_slug-IsPublished, unpublished_not_found, list_public-IsPublished,
}
use qdt_test.Store.History.{run, step, empty, Call, answer, cancels, fails, releases}
use qdt_test.Store.History.Once.{run-Once, empty-Once}
use qdt_test.Store.History.Atomic.{refused_writes_nothing}
use qdt_test.Store.History.Integrity.{Integrity, run-Integrity, empty-Integrity}
use qdt_test.Tests.{
  page, timer, worker_1, worker_2, draft, redraft, job, opening, story, done_row, timer_2, job_2,
  queue, live, live_page,
}

-- A job that a worker has claimed cannot be cancelled, and the attempt writes nothing.
refused_writes_nothing_example :
    step healthy (cancels timer 101) (run opening empty) ≡ run opening empty
unfolding answer run step create_content update_content create_schedule cancel_schedule
    claim_due_schedules due_rows tx insert_content insert_version_row insert_schedule text_dec sort
    check_owner
refused_writes_nothing_example =
    refused_writes_nothing healthy (cancels timer 101) (run opening empty) not_cancellable refl

one_writer_wins_example :
    update_content healthy page 2 draft [] 27
      (update_content healthy page 2 redraft [] 25 (run opening empty)).1
    ≡ (err version_conflict, (update_content healthy page 2 redraft [] 25 (run opening empty)).1)
unfolding run step create_content update_content create_schedule claim_due_schedules due_rows tx
    insert_content insert_version_row insert_schedule text_dec sort check_owner
one_writer_wins_example =
    one_writer_wins healthy page 2 redraft draft [] [] 25 27 (run opening empty)
      (update_content healthy page 2 redraft [] 25 (run opening empty)).1
      (record {
        content = record {
          id = page;
          slug = codes "hello";
          current_version = 3;
          published_version_id = none;
          published_at = none;
          created_at = 10;
          updated_at = 25;
        };
        version = version_row 3 page 3 redraft [] 25;
      })
      refl

last_byte : Text → ℕ
last_byte [] = 0
last_byte (c ∷ []) = c
last_byte (c ∷ d ∷ s) = last_byte (d ∷ s)

others_release : worker_2 ≢ worker_1
unfolding last_byte
others_release h = let e : 50 ≡ 49 = ap last_byte h in absurd (omega (arith, e))

-- What another worker and a client try while the lease runs.
abbrev meddling : List (Conn × Call)
meddling =
    (healthy, releases worker_2 105)
    ∷ (healthy, fails timer worker_2 [] 106)
    ∷ (healthy, cancels timer 107)
    ∷ []

claims_exclusive_example :
    (timer ≢ timer_2)
    × ((s : Schedule) × Memᴰ s (run queue empty).publish_schedules
        × (job ≡ job_of s)
        × (((s.status ≡ Status.pending) × (s.run_at ≤ 100))
            ⊎ ((s.status ≡ Status.claimed) × ((e : ℕ) × (s.lock_expires_at ≡ some e) × (e ≤ 100)))))
unfolding run step create_content create_schedule cancel_schedule claim_due_schedules fail_schedule
    release_claims due_rows tx insert_content insert_version_row insert_schedule text_dec sort
    check_owner
claims_exclusive_example =
    claims_exclusive healthy healthy worker_1 worker_2 100 130 10 115 145 10 meddling
      (run queue empty) (claim_due_schedules healthy worker_1 100 130 10 (run queue empty)).1
      (claim_due_schedules healthy worker_2 115 145 10
        (run meddling (claim_due_schedules healthy worker_1 100 130 10 (run queue empty)).1)).1
      (job ∷ []) (job_2 ∷ []) job job_2 (run-Once queue empty empty-Once) (omega arith) refl
      (others_release, (λ (_, h). others_release h, (tt, tt))) refl (Memᴰ.head refl)
      (Memᴰ.head refl)

opening_keeps : Integrity (run opening empty)
opening_keeps = run-Integrity opening empty (tt, (tt, (tt, (tt, tt)))) empty-Integrity

second_byte : Option Text → ℕ
second_byte (some (c ∷ d ∷ s)) = d
second_byte _ = 0

workers_differ : some worker_1 ≢ some worker_2
unfolding second_byte
workers_differ h = let e : 49 ≡ 50 = ap second_byte h in absurd (omega (arith, e))

-- The one claimed row is another worker's.
none_held :
    (s : Schedule)
    → Memᴰ s (run opening empty).publish_schedules
    → s.id ≡ timer
    → s.status ≡ Status.claimed
    → s.locked_by ≢ some worker_2
unfolding run step create_content update_content create_schedule claim_due_schedules due_rows tx
    insert_content insert_version_row insert_schedule text_dec sort check_owner
none_held s (Memᴰ.head e) named active = rw e workers_differ
none_held s (Memᴰ.tail m) named active = elim m [ ]

no_lease_no_effect_example :
    ((complete_scheduled_publish healthy job worker_2 110 (run opening empty)).0 ≢ ok true)
    × ((complete_scheduled_publish healthy job worker_2 110 (run opening empty)).1
        ≡ run opening empty)
no_lease_no_effect_example =
    no_lease_no_effect healthy job worker_2 110 (run opening empty) none_held

abbrev unpublished_content : Content
unpublished_content = record {
  id = page;
  slug = codes "hello";
  current_version = 2;
  published_version_id = none;
  published_at = none;
  created_at = 10;
  updated_at = 20;
}

unpublished_not_found_example :
    get_public_by_slug (codes "hello") (run opening empty) ≡ err not_found
unfolding run step create_content update_content create_schedule claim_due_schedules due_rows tx
    insert_content insert_version_row insert_schedule text_dec sort check_owner
unpublished_not_found_example =
    unpublished_not_found (codes "hello") (run opening empty) unpublished_content
      opening_keeps.consistent (Memᴰ.head refl) refl refl

get_public_by_slug-IsPublished_example :
    IsPublished (run live empty) live_page × (live_page.slug ≡ codes "hello")
unfolding run step create_content update_content publish tx insert_content insert_version_row
    insert_event set_published text_dec check_owner get_public_by_slug public_rows
get_public_by_slug-IsPublished_example =
    get_public_by_slug-IsPublished (codes "hello") (run live empty) live_page refl

list_public-IsPublished_example : IsPublished (run live empty) live_page
unfolding run step create_content update_content publish tx insert_content insert_version_row
    insert_event set_published text_dec check_owner list_public public_rows sort
list_public-IsPublished_example =
    list_public-IsPublished 20 0 (run live empty) live_page (Memᴰ.head refl)

late_completion_fails_example :
    (context : String) × (e : SqlError) × (complete_scheduled_publish healthy job worker_2 115
        (run story empty)
      ≡ (err (wrapped context e), run story empty))
unfolding run step create_content update_content create_schedule claim_due_schedules
    complete_scheduled_publish due_rows tx insert_content insert_version_row insert_schedule
    insert_event set_published text_dec sort check_owner
late_completion_fails_example =
    late_completion_fails job worker_2 115 (run story empty) done_row
      (run-Once story empty empty-Once) (Memᴰ.head refl) refl refl
