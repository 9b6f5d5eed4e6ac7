-- ===== src/Tests/Requests.antt =====
-- The theorems about the handlers, each at concrete requests.
use qdt_test.Common.{
  ℕ, Text, text_dec, sort, trim_space, rune_count, parse_digits, ◌≡◌, refl, none, some, ok, codes,
  arith, [], false,
}
use mathlib.Core.List.{Memᴰ}
use qdt_test.Store.Model.{Db, Content, ContentWithVersion}
use qdt_test.Store.Tx.{tx, healthy}
use qdt_test.Store.Statements.{insert_content, insert_version_row, insert_schedule, version_row}
use qdt_test.Store.Contents.{create_content, update_content, get_content_with_current_version}
use qdt_test.Store.Publish.{check_owner}
use qdt_test.Store.Schedules.{create_schedule, claim_due_schedules, due_rows}
use qdt_test.Store.History.{run, step, empty}
use qdt_test.Store.History.Integrity.{Integrity, run-Integrity, empty-Integrity}
use qdt_test.Content.Validate.{normalize_fields}
use qdt_test.Content.Service.{edit, get}
use qdt_test.Httpapi.Etag.{format_etag, format_int, parse_if_match}
use qdt_test.Httpapi.Reply.{Code, failed, rebase, rebase_on}
use qdt_test.Httpapi.Dto.{to_content_dto, published_version_number}
use qdt_test.Httpapi.Admin.{
  UpdateContentRequest, handle_get_content, handle_update_content, write_content,
}
use qdt_test.Httpapi.Admin.Guarded.{lost_update_prevented}
use qdt_test.Httpapi.Public.{handle_public_get}
use qdt_test.Httpapi.Public.Hidden.{unpublished_as_unknown}
use qdt_test.Tests.{page, opening, redraft}

abbrev clock_text : ℕ → Text
clock_text ms = codes "2026"

abbrev at_version : ℕ → ℕ → Content
at_version n updated_at = record {
  id = page;
  slug = codes "hello";
  current_version = n;
  published_version_id = none;
  published_at = none;
  created_at = 10;
  updated_at = updated_at;
}

abbrev request : UpdateContentRequest
request = record {
  title = codes "U";
  body = codes "B";
  seo = record {
    meta_title = [];
    meta_description = [];
    canonical_url = [];
    og_image_url = [];
    noindex = false;
  };
}

abbrev before : ContentWithVersion
before = record { content = at_version 2 20; version = version_row 2 page 2 redraft [] 20 }

abbrev edited : ContentWithVersion
edited = record { content = at_version 3 25; version = version_row 3 page 3 redraft [] 25 }

abbrev stored : Db
stored = (update_content healthy page 2 redraft [] 25 (run opening empty)).1

lost_update_prevented_example :
    handle_update_content clock_text healthy
      (λ db. db)
      page
      (ok request)
      (format_etag 2)
      []
      27
      stored
    ≡ (
      failed 412 (record {
        code = Code.version_conflict;
        message = "The content was modified by someone else. Re-read it and retry.";
        details = rebase (rebase_on page stored);
      }),
      stored,
    )
unfolding run step create_content update_content create_schedule claim_due_schedules due_rows tx
    insert_content insert_version_row insert_schedule text_dec sort check_owner handle_get_content
    get get_content_with_current_version write_content published_version_number to_content_dto
    handle_update_content edit normalize_fields trim_space rune_count format_etag format_int
    parse_if_match parse_digits
lost_update_prevented_example =
    lost_update_prevented clock_text healthy (λ db. db) (λ db. db) page request request
      (format_etag 2) [] [] 25 27 (run opening empty) (run opening empty) stored
      (to_content_dto clock_text before none) (to_content_dto clock_text edited none) 200
      (some (format_etag 3)) none redraft refl (omega arith) (omega arith) refl refl

opening_keeps : Integrity (run opening empty)
opening_keeps = run-Integrity opening empty (tt, (tt, (tt, (tt, tt)))) empty-Integrity

unpublished_as_unknown_example :
    handle_public_get clock_text [] (codes "hello") (run opening empty)
    ≡ handle_public_get clock_text [] (codes "hello") empty
unfolding run step create_content update_content create_schedule claim_due_schedules due_rows tx
    insert_content insert_version_row insert_schedule text_dec sort check_owner
unpublished_as_unknown_example =
    unpublished_as_unknown clock_text [] (codes "hello") (run opening empty) (at_version 2 20)
      opening_keeps.consistent (Memᴰ.head refl) refl refl
