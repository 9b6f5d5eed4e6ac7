-- ===== src/Store/Public.antt =====
-- internal/store/public.go: what the public may read, all of it through published_version_id.
pub mod Sound
pub mod Served
pub mod Drafts
pub mod Listed
pub mod Latest
use qdt_test.Common.{
  ℕ, Text, text_eq, text_ltb, ◌==◌, ltb, if◌then◌else◌, Option, none, some, Bool, ◌&&◌, or_fail,
  ◌||◌, not, List, [], ◌∷◌, map, Result, find, join, length, select, sort, take, drop,
}
use qdt_test.Store.Model.{Db, Error, not_found, Content, Version, VersionFields, ContentWithVersion}
use qdt_test.Store.Statements.{opt_eq}
use qdt_test.Store.Contents.{pair}

pub record PublicContent : Type 0 where
  pub slug : Text
  pub title : Text
  pub body : Text
  pub fields : VersionFields
  pub published_at : ℕ
  pub updated_at : ℕ

-- `JOIN content_versions v ON v.id = c.published_version_id`.
abbrev is_public : Content → Version → Bool
is_public c v = opt_eq c.published_version_id v.id

unfoldable pub public_rows : Db → List ContentWithVersion
public_rows db = join is_public pair db.contents db.content_versions

-- A NULL published_at is scanned as 0.
abbrev or_zero : Option ℕ → ℕ
or_zero none = 0
or_zero (some n) = n

-- `scanPublic`.
abbrev pub public_view : ContentWithVersion → PublicContent
public_view r = record {
  slug = r.content.slug;
  title = r.version.fields.title;
  body = r.version.fields.body;
  fields = r.version.fields;
  published_at = or_zero r.content.published_at;
  updated_at = r.content.updated_at;
}

unfoldable pub get_public_by_slug : Text → Db → Result Error PublicContent
unfolding public_rows
get_public_by_slug slug db =
    or_fail not_found
      (find (λ (p : PublicContent). text_eq p.slug slug) (map public_view (public_rows db)))

abbrev at_or_zero : ContentWithVersion → ℕ
at_or_zero r = or_zero r.content.published_at

-- `ORDER BY c.published_at DESC, c.id DESC`; a NULL is the least value.
abbrev latest_first : ContentWithVersion → ContentWithVersion → Bool
latest_first r s =
    ltb (at_or_zero s) (at_or_zero r)
    || (at_or_zero s == at_or_zero r && not (text_ltb r.content.id s.content.id))

unfoldable pub list_public : ℕ → ℕ → Db → List PublicContent
unfolding public_rows
list_public limit offset db =
    take limit (drop offset (map public_view (sort latest_first (public_rows db))))

unfoldable pub count_public : Db → ℕ
unfolding public_rows
count_public db = length (public_rows db)

pub record SitemapEntry : Type 0 where
  pub slug : Text
  pub last_modified : ℕ

-- `COALESCE(c.published_at, c.updated_at)`.
abbrev coalesce : Option ℕ → ℕ → ℕ
coalesce none d = d
coalesce (some n) d = n

abbrev pub sitemap_entry : ContentWithVersion → SitemapEntry
sitemap_entry r = record {
  slug = r.content.slug;
  last_modified = coalesce r.content.published_at r.content.updated_at;
}

abbrev may_index : ContentWithVersion → Bool
may_index r = not r.version.fields.noindex

unfoldable pub list_sitemap_entries : ℕ → Db → List SitemapEntry
unfolding public_rows
list_sitemap_entries limit db =
    map sitemap_entry (take limit (sort latest_first (select may_index (public_rows db))))

-- `MAX(c.updated_at)`, where the NULL of an empty join is scanned as 0.
max_updated : List ContentWithVersion → ℕ
max_updated [] = 0
max_updated (r ∷ rs) =
    let rest = max_updated rs in
    if ltb rest r.content.updated_at then r.content.updated_at else rest

unfoldable pub latest_published_at : Db → ℕ
unfolding public_rows max_updated
latest_published_at db = max_updated (public_rows db)
