-- ===== src/Store/Public/Served.antt =====
-- The public reads of what is published, and of what an edit leaves.
use qdt_test.Common.{
  ℕ, text_eq, text_eq_refl, ◌≡◌, refl, sym, ap, ◌∙◌, some, true, map, ok, arith, in-join, in-find,
  Apart-eq,
}
use mathlib.Core.List.{Memᴰ}
use mathlib.Core.List.Memᴰ
use qdt_test.Store.Model.{Db, Content, Version}
use qdt_test.Store.Statements.{opt_eq}
use qdt_test.Store.Contents.{pair}
use qdt_test.Store.Versioned.{Consistent, SameSlug, SameRow}
use qdt_test.Store.Public.{PublicContent, is_public, public_rows, public_view, get_public_by_slug}
use qdt_test.Store.Public.Sound.{get_public_by_slug-IsPublished}

opt_eq-some : (n : ℕ) → opt_eq (some n) n ≡ true
opt_eq-some n = ground arith

in-public_rows :
    (db : Db) (c : Content) (v : Version)
    → Memᴰ c db.contents
    → Memᴰ v db.content_versions
    → c.published_version_id ≡ some v.id
    → Memᴰ (public_view (pair c v)) (map public_view (public_rows db))
unfolding public_rows
in-public_rows db c v m k pointed =
    Memᴰ.map public_view
      (in-join is_public pair db.contents db.content_versions m k (rw pointed (opt_eq-some v.id)))

-- A document is found by its slug if it is published.
found_by_slug :
    (db : Db) (c : Content) (v : Version)
    → Memᴰ c db.contents
    → Memᴰ v db.content_versions
    → c.published_version_id ≡ some v.id
    → (p : PublicContent) × (get_public_by_slug c.slug db ≡ ok p)
unfolding get_public_by_slug
found_by_slug db c v m k pointed =
    let (p, found) =
      in-find (λ (q : PublicContent). text_eq q.slug c.slug) (map public_view (public_rows db))
        (in-public_rows db c v m k pointed) (text_eq_refl c.slug) in
    (p, rw found refl)

-- What is published is served: the slug of a content is answered by the fields of the version that
-- its pointer names, in a database whose contents and versions are consistent.
pub published_is_served :
    (db : Db) (c : Content) (v : Version)
    → Consistent db
    → Memᴰ c db.contents
    → Memᴰ v db.content_versions
    → c.published_version_id ≡ some v.id
    → get_public_by_slug c.slug db ≡ ok (public_view (pair c v))
published_is_served db c v x m k pointed =
    let (p, found) = found_by_slug db c v m k pointed in
    let (q, named) = get_public_by_slug-IsPublished c.slug db p found in
    let same_content : q.content ≡ c =
      Apart-eq SameSlug db.contents x.slugs (λ a b e. sym e) q.listed m
        (sym (ap (λ (t : PublicContent). t.slug) q.shown) ∙ named) in
    let same_row : q.version.id ≡ v.id = cc (q.pointed, pointed, same_content) in
    let same_version : q.version ≡ v =
      Apart-eq SameRow db.content_versions x.rows (λ a b e. sym e) q.stored k same_row in
    found
    ∙ ap ok (
        q.shown
        ∙ ap (λ (t : Content). public_view (pair t q.version)) same_content
        ∙ ap (λ (t : Version). public_view (pair c t)) same_version)
