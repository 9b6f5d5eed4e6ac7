-- ===== src/Httpapi/Public/Stale.antt =====
-- The conditional replies of the public list after a document is withdrawn.
use qdt_test.Common.{ℕ, ◌≤◌, Text, ◌≡◌, ◌≢◌, refl, sym, ap, subst, some, ok, err, arith, Apart-eq}
use mathlib.Core.List.{Memᴰ}
use qdt_test.Store.Model.{Db, Content, Version, not_found}
use qdt_test.Store.Tx.{Conn}
use qdt_test.Store.Versioned.{Consistent, SameContent}
use qdt_test.Store.Publish.{unpublish}
use qdt_test.Store.Publish.Consistent.{unpublish-Consistent}
use qdt_test.Store.Publish.Withdrawn.{unpublish-rows, withdrawn-listed}
use qdt_test.Store.Public.{get_public_by_slug, latest_published_at}
use qdt_test.Store.Public.Latest.{withdrawn-latest}
use qdt_test.Store.Public.Sound.{unpublished_not_found}
use qdt_test.Httpapi.Etag.{format_etag}
use qdt_test.Httpapi.Etag.Fresh.{format_etag-matches}
use qdt_test.Httpapi.Reply.{not_modified}
use qdt_test.Httpapi.Pages.{parse_pagination}
use qdt_test.Httpapi.Public.{content_etag, serve_conditional, public_page, handle_public_list}

-- A tag that is sent back at the time that it is made from is answered by itself.
serve_conditional-fresh :
    {A : Type 0} (n : ℕ) (body : A)
    → serve_conditional (content_etag n) n body ≡ not_modified (content_etag n)
unfolding serve_conditional content_etag format_etag
serve_conditional-fresh n body = rw (format_etag-matches n) refl

handle_public_list-fresh :
    (format_millis : ℕ → Text) (raw_limit raw_offset : Text) (db : Db) (page : ℕ × ℕ)
    → parse_pagination raw_limit raw_offset ≡ ok page
    → handle_public_list format_millis
        (content_etag (latest_published_at db))
        raw_limit
        raw_offset
        db
      ≡ not_modified (content_etag (latest_published_at db))
unfolding handle_public_list public_page
handle_public_list-fresh format_millis raw_limit raw_offset db (limit, offset) valid =
    rw valid (serve_conditional-fresh (latest_published_at db) _)

-- The validator of the list misses a withdrawal: where a published content is unpublished and another
-- published one is as new or newer, a client that sends back the tag of the list as it was before is
-- told that nothing has changed, though the content can no longer be read by its slug. The contents
-- and versions are consistent before.
pub withdrawal_not_seen :
    (format_millis : ℕ → Text) (raw_limit raw_offset : Text) (page : ℕ × ℕ) (conn : Conn)
    (id actor : Text) (now : ℕ) (db after : Db) (r c d : Content) (v : ℕ) (w : Version)
    → Consistent db
    → parse_pagination raw_limit raw_offset ≡ ok page
    → unpublish conn id actor now db ≡ (ok r, after)
    → Memᴰ c db.contents
    → c.id ≡ id
    → c.published_version_id ≡ some v
    → Memᴰ d db.contents
    → Memᴰ w db.content_versions
    → d.published_version_id ≡ some w.id
    → d.id ≢ id
    → c.updated_at ≤ d.updated_at
    → (handle_public_list format_millis
          (content_etag (latest_published_at db))
          raw_limit
          raw_offset
          after
        ≡ not_modified (content_etag (latest_published_at db)))
      × (get_public_by_slug c.slug after ≡ err not_found)
withdrawal_not_seen format_millis raw_limit raw_offset page conn id actor now db after r c d v w x
      valid done listed named published listed' stored pointed other newer =
    let (rows, versions) =
      unpublish-rows conn id actor now db after r c v x done listed named published in
    let (e, in_after, slug, unset) =
      withdrawn-listed conn id actor now db after r c v x done listed named published in
    let x' : Consistent after =
      subst Consistent (ap (λ q. q.1) done) (unpublish-Consistent conn id actor now db x) in
    let same : latest_published_at after ≡ latest_published_at db =
      withdrawn-latest id now db after rows versions c d w listed' stored pointed (ground arith)
        (λ a m hit.
          Apart-eq SameContent db.contents x.content_ids (λ s t e. sym e) m listed (ground arith))
        newer in
    (
      subst
          (λ n.
            handle_public_list format_millis (content_etag n) raw_limit raw_offset after
            ≡ not_modified (content_etag n))
          same (handle_public_list-fresh format_millis raw_limit raw_offset after page valid),
      unpublished_not_found c.slug after e x' in_after slug unset,
    )
