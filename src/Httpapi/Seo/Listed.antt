-- ===== src/Httpapi/Seo/Listed.antt =====
-- Which documents the sitemap of internal/httpapi/seo.go lists.
use qdt_test.Common.{ℕ, ◌≤◌, Text, ◌≡◌, refl, sym, ap, some, false}
use mathlib.Core.List.{Memᴰ}
use mathlib.Core.List.Memᴰ
use qdt_test.Store.Model.{Db, Content, Version}
use qdt_test.Store.Contents.{pair}
use qdt_test.Store.Public.{SitemapEntry, sitemap_entry, list_sitemap_entries}
use qdt_test.Store.Public.Listed.{IsIndexable, sitemap-IsIndexable, in-sitemap, indexable_count}
use qdt_test.Httpapi.Seo.{SitemapUrl, public_url, sitemap_url, sitemap_urls, max_sitemap_urls}

module _ (w3c_datetime : ℕ → Text) (base : Text) (db : Db) where
  -- Every url of the sitemap is the public address of a document that is published and that crawlers
  -- may index.
  pub sitemap_urls-IsIndexable :
      (u : SitemapUrl)
      → Memᴰ u (sitemap_urls w3c_datetime base db)
      → (e : SitemapEntry) × IsIndexable db e × (u.loc ≡ public_url base e.slug)
  unfolding sitemap_urls public_url
  sitemap_urls-IsIndexable u m =
      let (e, k, same) =
        Memᴰ.of_map (sitemap_url w3c_datetime base) (list_sitemap_entries max_sitemap_urls db) m in
      (e, sitemap-IsIndexable max_sitemap_urls db e k, ap (λ (t : SitemapUrl). t.loc) (sym same))

  -- Every published document that crawlers may index has its url in the sitemap, if there are no more
  -- than 50,000 of them.
  pub in-sitemap_urls :
      (c : Content) (v : Version)
      → Memᴰ c db.contents
      → Memᴰ v db.content_versions
      → c.published_version_id ≡ some v.id
      → v.fields.noindex ≡ false
      → indexable_count db ≤ max_sitemap_urls
      → (u : SitemapUrl) × Memᴰ u (sitemap_urls w3c_datetime base db)
        × (u.loc ≡ public_url base c.slug)
  unfolding sitemap_urls public_url
  in-sitemap_urls c v m k pointed indexed short = (
    sitemap_url w3c_datetime base (sitemap_entry (pair c v)),
    Memᴰ.map (sitemap_url w3c_datetime base)
        (in-sitemap max_sitemap_urls db c v m k pointed indexed short),
    refl,
  )
