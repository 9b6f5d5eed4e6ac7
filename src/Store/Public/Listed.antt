-- ===== src/Store/Public/Listed.antt =====
-- Which documents the sitemap's query returns.
use qdt_test.Common.{
  ℕ, ◌≤◌, ◌≡◌, some, false, length, select, arith, join-in, in-join, in-select, select-in, in-sort,
  sort-in, in-take, take-in, length-sort,
}
use mathlib.Core.List.{Memᴰ}
use mathlib.Core.List.Memᴰ
use qdt_test.Store.Model.{Db, Content, Version}
use qdt_test.Store.Contents.{pair}
use qdt_test.Store.Public.{
  SitemapEntry, list_sitemap_entries, public_rows, is_public, may_index, latest_first,
  sitemap_entry,
}

-- A published document that crawlers may index, and its entry.
pub record IsIndexable (db : Db) (e : SitemapEntry) : Type 0 where
  pub content : Content
  pub version : Version
  pub listed : Memᴰ content db.contents
  pub stored : Memᴰ version db.content_versions
  pub pointed : content.published_version_id ≡ some version.id
  pub indexed : version.fields.noindex ≡ false
  pub shown : e ≡ sitemap_entry (pair content version)

-- The published documents that crawlers may index, as many as there are.
unfoldable pub indexable_count : Db → ℕ
indexable_count db = length (select may_index (public_rows db))

pub sitemap-IsIndexable :
    (limit : ℕ) (db : Db) (e : SitemapEntry)
    → Memᴰ e (list_sitemap_entries limit db)
    → IsIndexable db e
unfolding list_sitemap_entries public_rows
sitemap-IsIndexable limit db e m =
    let (r, k, same) = Memᴰ.of_map sitemap_entry _ m in
    let (in_rows, may) =
      select-in r may_index (public_rows db) (sort-in latest_first _ (take-in limit _ k)) in
    let (c, v, in_contents, in_versions, on, of_pair) =
      join-in is_public pair db.contents db.content_versions in_rows in
    record {
      content = c;
      version = v;
      listed = in_contents;
      stored = in_versions;
      pointed = ground arith;
      indexed = ground arith;
      shown = rw (← same, of_pair);
    }

pub in-sitemap :
    (limit : ℕ) (db : Db) (c : Content) (v : Version)
    → Memᴰ c db.contents
    → Memᴰ v db.content_versions
    → c.published_version_id ≡ some v.id
    → v.fields.noindex ≡ false
    → indexable_count db ≤ limit
    → Memᴰ (sitemap_entry (pair c v)) (list_sitemap_entries limit db)
unfolding list_sitemap_entries public_rows indexable_count
in-sitemap limit db c v m k pointed indexed short =
    let row = in-join is_public pair db.contents db.content_versions m k (ground arith) in
    Memᴰ.map sitemap_entry (
      in-take limit _
        (omega (arith, length-sort {0} latest_first (select may_index (public_rows db))))
        (in-sort latest_first _ (in-select may_index (public_rows db) row (ground arith))))
