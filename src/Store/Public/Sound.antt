-- ===== src/Store/Public/Sound.antt =====
-- What the public reads of internal/store/public.go return.
use qdt_test.Common.{
  join-in, ℕ, Text, text_eq, ◌≡◌, sym, none, some, map, ok, err, inl, inr, Option-cases, arith,
  find, find-in, Apart-eq, drop-in, sort, take-in, sort-in,
}
use mathlib.Core.List.{Memᴰ}
use mathlib.Core.List.Memᴰ
use qdt_test.Store.Model.{Db, Content, Version, not_found}
use qdt_test.Store.Contents.{pair}
use qdt_test.Store.Versioned.{Consistent, SameSlug}
use qdt_test.Store.Public.{
  PublicContent, is_public, public_rows, public_view, get_public_by_slug, list_public, latest_first,
}

-- A published document: a content, and the version row that its pointer names.
pub record IsPublished (db : Db) (p : PublicContent) : Type 0 where
  pub content : Content
  pub version : Version
  pub listed : Memᴰ content db.contents
  pub stored : Memᴰ version db.content_versions
  pub pointed : content.published_version_id ≡ some version.id
  pub shown : p ≡ public_view (pair content version)

public_rows-IsPublished :
    (db : Db) (p : PublicContent) → Memᴰ p (map public_view (public_rows db)) → IsPublished db p
unfolding public_rows
public_rows-IsPublished db p m =
    let (r, k, e) = Memᴰ.of_map public_view (public_rows db) m in
    let (c, v, in_contents, in_versions, on, of_pair) =
      join-in is_public pair db.contents db.content_versions k in
    record {
      content = c;
      version = v;
      listed = in_contents;
      stored = in_versions;
      pointed = ground arith;
      shown = rw (← e, of_pair);
    }

-- What the public read returns for a slug is the version that the published pointer of a content
-- with that slug names, never another version of it.
pub get_public_by_slug-IsPublished :
    (slug : Text) (db : Db) (p : PublicContent)
    → get_public_by_slug slug db ≡ ok p
    → IsPublished db p × (p.slug ≡ slug)
unfolding get_public_by_slug
get_public_by_slug-IsPublished slug db p found =
    let (m, h) =
      find-in p (λ (q : PublicContent). text_eq q.slug slug) (map public_view (public_rows db))
        (ground arith) in
    (public_rows-IsPublished db p m, ground arith)

-- The slug of a content whose pointer is not set is answered by not found, in a database where contents
-- and content_versions are consistent.
pub unpublished_not_found :
    (slug : Text) (db : Db) (c : Content)
    → Consistent db
    → Memᴰ c db.contents
    → c.slug ≡ slug
    → c.published_version_id ≡ none
    → get_public_by_slug slug db ≡ err not_found
unfolding get_public_by_slug
unpublished_not_found slug db c x m named unset =
    elim (Option-cases
      (find (λ (q : PublicContent). text_eq q.slug slug) (map public_view (public_rows db)))) [
        | inl missing ↦ rw missing
        | inr (p, found) ↦
            let (k, h) =
              find-in p (λ (q : PublicContent). text_eq q.slug slug)
                (map public_view (public_rows db)) found in
            let q = public_rows-IsPublished db p k in
            let same : q.content ≡ c =
              Apart-eq SameSlug db.contents x.slugs (λ a b e. sym e) q.listed m
                (ground (arith, q.shown)) in
            absurd (ground (arith, same, q.pointed))
      ]

-- Every document of a public page is published.
pub list_public-IsPublished :
    (limit offset : ℕ) (db : Db) (p : PublicContent)
    → Memᴰ p (list_public limit offset db)
    → IsPublished db p
unfolding list_public
list_public-IsPublished limit offset db p m =
    let (r, k, e) =
      Memᴰ.of_map public_view (sort latest_first (public_rows db))
        (drop-in offset _ (take-in limit _ m)) in
    public_rows-IsPublished db p
      (Memᴰ.cast (sym e) (Memᴰ.map public_view (sort-in latest_first (public_rows db) k)))
