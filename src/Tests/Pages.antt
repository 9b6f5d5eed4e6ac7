-- ===== src/Tests/Pages.antt =====
-- The theorems about the pages and the public list, at concrete inputs.
use qdt_test.Common.{
  ℕ, Text, text_dec, sort, ◌≡◌, ◌≢◌, refl, ap, [], ◌∷◌, err, none, some, codes, arith, List,
}
use mathlib.Core.List.{Memᴰ}
use qdt_test.Store.Model.{Content, not_found}
use qdt_test.Store.Tx.{Conn, tx, healthy}
use qdt_test.Store.Statements.{
  insert_content, insert_version_row, insert_schedule, insert_event, set_published, version_row,
}
use qdt_test.Store.Contents.{create_content, update_content}
use qdt_test.Store.Schedules.{create_schedule, claim_due_schedules, due_rows}
use qdt_test.Store.Publish.{check_owner, publish, unpublish}
use qdt_test.Store.Public.{
  SitemapEntry, get_public_by_slug, public_rows, latest_published_at, list_sitemap_entries,
}
use qdt_test.Store.Public.Listed.{IsIndexable, indexable_count}
use qdt_test.Store.History.{Call, run, step, empty, creates, publishes}
use qdt_test.Store.History.Integrity.{Integrity, run-Integrity, empty-Integrity}
use qdt_test.Httpapi.Reply.{not_modified}
use qdt_test.Httpapi.Public.{content_etag, handle_public_list}
use qdt_test.Httpapi.Listing.{handle_list_contents, handle_list_versions}
use qdt_test.Httpapi.Listing.Bounds.{IsBounded}
use qdt_test.Httpapi.Public.Bounds.{pages-IsBounded}
use qdt_test.Httpapi.Pages.{parse_pagination}
use qdt_test.Httpapi.Public.Stale.{withdrawal_not_seen}
use qdt_test.Httpapi.Seo.{SitemapUrl, public_url, sitemap_url, sitemap_urls}
use qdt_test.Httpapi.Seo.Listed.{sitemap_urls-IsIndexable, in-sitemap_urls}
use qdt_test.Httpapi.Html.{Rendering, error_page, handle_html_page}
use qdt_test.Httpapi.Html.Hidden.{unpublished_page_not_found}
use qdt_test.Tests.{page, page_2, draft, opening}

abbrev time_text : ℕ → Text
time_text ms = codes "2026"

abbrev rendering : Rendering
rendering = record {
  rfc3339 = time_text;
  human_date = time_text;
  marshal = λ a. none;
  execute = λ p. some p.title;
}

abbrev hello : Content
hello = record {
  id = page;
  slug = codes "hello";
  current_version = 2;
  published_version_id = none;
  published_at = none;
  created_at = 10;
  updated_at = 20;
}

opening_keeps : Integrity (run opening empty)
opening_keeps = run-Integrity opening empty (tt, (tt, (tt, (tt, tt)))) empty-Integrity

unpublished_page_not_found_example :
    handle_html_page rendering (codes "http://x") [] (codes "hello") (run opening empty)
    ≡ error_page 404 (codes "404 - Not found")
unfolding run step create_content update_content create_schedule claim_due_schedules due_rows tx
    insert_content insert_version_row insert_schedule text_dec sort check_owner
unpublished_page_not_found_example =
    unpublished_page_not_found rendering (codes "http://x") [] (codes "hello") (run opening empty)
      hello opening_keeps.consistent (Memᴰ.head refl) refl refl

-- Two documents, the second published after the first.
abbrev two_pages : List (Conn × Call)
two_pages =
    (healthy, creates page (codes "hello") draft [] 10)
    ∷ (healthy, creates page_2 (codes "world") draft [] 11)
    ∷ (healthy, publishes page 1 [] 40)
    ∷ (healthy, publishes page_2 2 [] 50)
    ∷ []

two_pages_keep : Integrity (run two_pages empty)
two_pages_keep = run-Integrity two_pages empty (tt, (tt, (tt, (tt, tt)))) empty-Integrity

abbrev first : Content
first = record hello {
  current_version = 1;
  published_version_id = some 1;
  published_at = some 40;
  updated_at = 40;
}

abbrev second : Content
second = record {
  id = page_2;
  slug = codes "world";
  current_version = 1;
  published_version_id = some 2;
  published_at = some 50;
  created_at = 11;
  updated_at = 50;
}

abbrev second_entry : SitemapEntry
second_entry = record { slug = codes "world"; last_modified = 50 }

sitemap_urls-IsIndexable_example :
    (e : SitemapEntry) × IsIndexable (run two_pages empty) e
    × ((sitemap_url time_text (codes "http://x") second_entry).loc
        ≡ public_url (codes "http://x") e.slug)
unfolding run step create_content publish tx insert_content insert_version_row insert_event
    set_published text_dec sort check_owner sitemap_urls list_sitemap_entries public_rows
sitemap_urls-IsIndexable_example =
    sitemap_urls-IsIndexable time_text (codes "http://x") (run two_pages empty)
      (sitemap_url time_text (codes "http://x") second_entry) (Memᴰ.head refl)

in-sitemap_urls_example :
    (u : SitemapUrl) × Memᴰ u (sitemap_urls time_text (codes "http://x") (run two_pages empty))
    × (u.loc ≡ public_url (codes "http://x") (codes "hello"))
unfolding run step create_content publish tx insert_content insert_version_row insert_event
    set_published text_dec sort check_owner indexable_count public_rows
in-sitemap_urls_example =
    in-sitemap_urls time_text (codes "http://x") (run two_pages empty) first
      (version_row 1 page 1 draft [] 10) (Memᴰ.head refl) (Memᴰ.head refl) refl refl (omega arith)

first_byte : Text → ℕ
first_byte (c ∷ s) = c
first_byte [] = 0

pages_differ : page_2 ≢ page
unfolding first_byte
pages_differ h = let e : 98 ≡ 97 = ap first_byte h in absurd (omega (arith, e))

withdrawal_not_seen_example :
    (handle_public_list time_text
        (content_etag (latest_published_at (run two_pages empty)))
        []
        []
        (unpublish healthy page [] 60 (run two_pages empty)).1
      ≡ not_modified (content_etag (latest_published_at (run two_pages empty))))
    × (get_public_by_slug (codes "hello") (unpublish healthy page [] 60 (run two_pages empty)).1
        ≡ err not_found)
unfolding run step create_content publish unpublish tx insert_content insert_version_row
    insert_event set_published text_dec sort check_owner parse_pagination
withdrawal_not_seen_example =
    withdrawal_not_seen time_text [] [] (20, 0) healthy page [] 60 (run two_pages empty)
      (unpublish healthy page [] 60 (run two_pages empty)).1
      (record first { published_version_id = none; published_at = none; updated_at = 60 }) first
      second 1 (version_row 2 page_2 1 draft [] 11) two_pages_keep.consistent refl refl
      (Memᴰ.head refl) refl refl (Memᴰ.tail (Memᴰ.head refl)) (Memᴰ.tail (Memᴰ.head refl)) refl
      pages_differ (omega arith)

pages-IsBounded_example :
    IsBounded (handle_list_contents time_text (codes "1") [] (run two_pages empty))
    × IsBounded (handle_list_versions time_text page (codes "1") [] (run two_pages empty))
    × IsBounded (handle_public_list time_text [] (codes "1") [] (run two_pages empty))
pages-IsBounded_example = pages-IsBounded time_text (run two_pages empty) page [] (codes "1") []
