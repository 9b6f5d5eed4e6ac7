-- ===== src/Store/Public/Drafts.antt =====
-- The public reads across an edit.
use qdt_test.Common.{
  ℕ, Text, ◌≡◌, refl, sym, ap, subst, ◌∙◌, ok, inl, inr, in-update, Bool-cases, if◌then◌else◌,
}
use mathlib.Core.List.{Memᴰ}
use mathlib.Core.List.Memᴰ
use qdt_test.Store.Model.{Db, Content, Version, VersionFields}
use qdt_test.Store.Tx.{Conn}
use qdt_test.Store.Tx.Rules.{tx-Outcome}
use qdt_test.Store.Contents.{pair, update_content, update_content_body, matches_token, bumped}
use qdt_test.Store.Contents.Consistent.{update_content_body-rows, update_content-Consistent}
use qdt_test.Store.Versioned.{Consistent}
use qdt_test.Store.Public.{PublicContent, get_public_by_slug, public_view}
use qdt_test.Store.Public.Sound.{get_public_by_slug-IsPublished}
use qdt_test.Store.Public.Served.{published_is_served}

-- What an edit leaves of a document: all but the time of the update.
abbrev pub SameDocument : PublicContent → PublicContent → Type 0
SameDocument p q = q ≡ record p { updated_at = q.updated_at }

-- The row of a content across an edit.
edited_row : Text → ℕ → ℕ → Content → Content
edited_row id n now c = if matches_token id n c then bumped now c else c

edited_row-same :
    (id : Text) (n now : ℕ) (c : Content) (v : Version)
    → ((edited_row id n now c).slug ≡ c.slug)
      × ((edited_row id n now c).published_version_id ≡ c.published_version_id)
      × SameDocument (public_view (pair c v)) (public_view (pair (edited_row id n now c) v))
unfolding edited_row
edited_row-same id n now c v = elim (Bool-cases (matches_token id n c)) [
  | inl hit ↦ rw hit (refl, refl, refl)
  | inr miss ↦ rw miss (refl, refl, refl)
]

-- The contents and versions after an edit that is stored or refused.
kept_rows :
    (conn : Conn) (id : Text) (n : ℕ) (f : VersionFields) (actor : Text) (now : ℕ) (db : Db)
    (c : Content) (v : Version)
    → Memᴰ c db.contents
    → Memᴰ v db.content_versions
    → let after = (update_content conn id n f actor now db).1 in
      (d : Content) × Memᴰ d after.contents
      × Memᴰ v after.content_versions
      × (d.slug ≡ c.slug)
      × (d.published_version_id ≡ c.published_version_id)
      × SameDocument (public_view (pair c v)) (public_view (pair d v))
unfolding update_content edited_row
kept_rows conn id n f actor now db c v m k =
    elim (tx-Outcome conn (update_content_body id n f actor now) db) [
      | inl (r, after, run, out) ↦
          let (hit, rows, versions, next) =
            update_content_body-rows id n f actor now db after r run in
          let (slug, pointer, document) = edited_row-same id n now c v in
          rw (out, rows, versions)
            (
              edited_row id n now c,
              in-update (matches_token id n) (bumped now) db.contents m,
              Memᴰ.append_left _ k,
              slug,
              pointer,
              document,
            )
      | inr (e, out) ↦ rw out (c, m, k, refl, refl, refl)
    ]

-- Editing a draft does not show: whatever edit is made to whatever content, and whether it is stored
-- or not, a slug that was answered by a document is answered by the same document afterwards, but
-- for the time of its update. The contents and versions are consistent.
pub draft_edit_hidden :
    (conn : Conn) (id : Text) (n : ℕ) (f : VersionFields) (actor : Text) (now : ℕ) (db : Db)
    (slug : Text) (p : PublicContent)
    → Consistent db
    → get_public_by_slug slug db ≡ ok p
    → (q : PublicContent) × (get_public_by_slug slug (update_content conn id n f actor now db).1
        ≡ ok q)
      × SameDocument p q
draft_edit_hidden conn id n f actor now db slug p x found =
    let (shown, named) = get_public_by_slug-IsPublished slug db p found in
    let (d, m, k, same_slug, same_pointer, document) =
      kept_rows conn id n f actor now db shown.content shown.version shown.listed shown.stored in
    let served =
      published_is_served (update_content conn id n f actor now db).1 d shown.version
        (update_content-Consistent conn id n f actor now db x) m k (same_pointer ∙ shown.pointed) in
    let of_content : shown.content.slug ≡ slug =
      sym (ap (λ (t : PublicContent). t.slug) shown.shown) ∙ named in
    (
      public_view (pair d shown.version),
      subst
          (λ t.
            get_public_by_slug t (update_content conn id n f actor now db).1
            ≡ ok (public_view (pair d shown.version)))
          (same_slug ∙ of_content) served,
      subst (λ t. SameDocument t (public_view (pair d shown.version))) (sym shown.shown) document,
    )
