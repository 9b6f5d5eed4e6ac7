-- ===== src/Tests/Served.antt =====
-- The theorems about what is served and about the abstract view, at concrete inputs.
use qdt_test.Common.{List, ◌∷◌, text_dec, sort, ◌≡◌, refl, [], ok, some, codes}
use mathlib.Core.List.{Memᴰ}
use qdt_test.Store.Model.{Content, Version}
use qdt_test.Store.Tx.{tx, healthy}
use qdt_test.Store.Statements.{
  insert_content, insert_version_row, insert_event, set_published, version_row,
}
use qdt_test.Store.Contents.{create_content, update_content, pair}
use qdt_test.Store.Contents.Register.{view}
use qdt_test.Store.Contents.Register.Replay.{Edit, run_edits, replay, edits_refine}
use qdt_test.Store.Contents.Register.Refines.{Simulates, update_refines}
use qdt_test.Store.Publish.{check_owner, publish}
use qdt_test.Store.Publish.Pointed.{publish_is_served}
use qdt_test.Store.Public.{PublicContent, get_public_by_slug, public_rows, public_view}
use qdt_test.Store.Public.Served.{published_is_served}
use qdt_test.Store.Public.Drafts.{SameDocument, draft_edit_hidden}
use qdt_test.Store.History.{run, step, empty, by_hand}
use qdt_test.Store.History.Integrity.{Integrity, run-Integrity, empty-Integrity}
use qdt_test.Tests.{page, draft, redraft, live, live_page}

live_keeps : Integrity (run live empty)
live_keeps = run-Integrity live empty (tt, (tt, (tt, tt))) empty-Integrity

live_content : Content
live_content = record {
  id = page;
  slug = codes "hello";
  current_version = 2;
  published_version_id = some 1;
  published_at = some 40;
  created_at = 10;
  updated_at = 50;
}

live_version : Version
live_version = version_row 1 page 1 draft [] 10

published_is_served_example :
    get_public_by_slug (codes "hello") (run live empty)
    ≡ ok (public_view (pair live_content live_version))
unfolding live_content live_version run step create_content update_content publish tx insert_content
    insert_version_row insert_event set_published text_dec sort check_owner
published_is_served_example =
    published_is_served (run live empty) live_content live_version live_keeps.consistent
      (Memᴰ.head refl) (Memᴰ.head refl) refl

draft_edit_hidden_example :
    (q : PublicContent) × (get_public_by_slug
        (codes "hello")
        (update_content healthy page 2 draft [] 60 (run live empty)).1
      ≡ ok q)
    × SameDocument live_page q
unfolding run step create_content update_content publish tx insert_content insert_version_row
    insert_event set_published text_dec sort check_owner get_public_by_slug public_rows
draft_edit_hidden_example =
    draft_edit_hidden healthy page 2 draft [] 60 (run live empty) (codes "hello") live_page
      live_keeps.consistent refl

update_refines_example :
    Simulates page 2 draft [] 60
      (run live empty)
      (update_content healthy page 2 draft [] 60 (run live empty))
update_refines_example = update_refines page 2 draft [] 60 (run live empty) live_keeps.consistent

-- What the second publish returns.
republished : Content
republished = record live_content {
  published_version_id = some 2;
  published_at = some 70;
  updated_at = 70;
}

publish_is_served_example :
    (v : Version) × Memᴰ v
      (publish healthy (by_hand page 2 [] 70) (run live empty)).1.content_versions
    × (v.id ≡ 2)
    × (v.content_id ≡ page)
    × (get_public_by_slug
          (codes "hello")
          (publish healthy (by_hand page 2 [] 70) (run live empty)).1
        ≡ ok (public_view (pair republished v)))
unfolding live_content republished run step create_content update_content publish tx insert_content
    insert_version_row insert_event set_published text_dec sort check_owner
publish_is_served_example =
    publish_is_served healthy (by_hand page 2 [] 70) (run live empty)
      (publish healthy (by_hand page 2 [] 70) (run live empty)).1 republished live_keeps.consistent
      refl

-- Two edits with one token, and one with the next.
abbrev edits : List Edit
edits =
    record { id = page; expected = 2; fields = draft; actor = []; now = 60 }
    ∷ record { id = page; expected = 2; fields = redraft; actor = []; now = 61 }
    ∷ record { id = page; expected = 3; fields = redraft; actor = []; now = 62 }
    ∷ []

edits_refine_example :
    ((run_edits edits (run live empty)).0 ≡ (replay edits (view (run live empty))).0)
    × (view (run_edits edits (run live empty)).1 ≡ (replay edits (view (run live empty))).1)
edits_refine_example = edits_refine edits (run live empty) live_keeps.consistent
