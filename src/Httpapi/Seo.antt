-- ===== src/Httpapi/Seo.antt =====
-- internal/httpapi/seo.go: the sitemap and robots.txt. The text of a time is a parameter.
pub mod Listed
use qdt_test.Common.{ℕ, Text, codes, List, [], ◌∷◌, ◌++◌, map}
use qdt_test.Store.Model.{Db}
use qdt_test.Store.Public.{SitemapEntry, list_sitemap_entries, latest_published_at}
use qdt_test.Httpapi.Reply.{Reply}
use qdt_test.Httpapi.Public.{serve_conditional}

abbrev pub max_sitemap_urls : ℕ
max_sitemap_urls = 50_000

pub record SitemapUrl : Type 0 where
  pub loc : Text
  pub last_mod : Text

-- `publicURL`.
unfoldable pub public_url : Text → Text → Text
public_url base slug = base ++ codes "/" ++ slug

module _ (w3c_datetime : ℕ → Text) (base : Text) where
  abbrev pub sitemap_url : SitemapEntry → SitemapUrl
  unfolding public_url
  sitemap_url e = record { loc = public_url base e.slug; last_mod = w3c_datetime e.last_modified }

  -- The urls of the document, in the order of the entries.
  unfoldable pub sitemap_urls : Db → List SitemapUrl
  sitemap_urls db = map sitemap_url (list_sitemap_entries max_sitemap_urls db)

  unfoldable pub handle_sitemap : Text → Db → Reply (List SitemapUrl)
  unfolding sitemap_urls
  handle_sitemap if_none_match db =
      serve_conditional if_none_match (latest_published_at db) (sitemap_urls db)

abbrev line : Text → Text
line s = s ++ 10 ∷ []

unfoldable pub robots_txt : Text → Text
robots_txt base =
    line (codes "User-agent: *")
    ++ line (codes "Disallow: /api/")
    ++ line (codes "Disallow: /public/")
    ++ line (codes "Disallow: /healthz")
    ++ line []
    ++ line (codes "Sitemap: " ++ base ++ codes "/sitemap.xml")
