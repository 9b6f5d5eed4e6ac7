-- ===== src/Store/Contents/Register/View.antt =====
-- What a consistent database stands for, read off its rows.
use qdt_test.Common.{
  Text, text_eq, text_eq_refl, ◌≡◌, refl, sym, ap, ◌∙◌, none, some, false, inl, inr, arith, find,
  find-in, in-find, any-in, join-in, in-join, Apart-eq, Option-cases, join,
}
use mathlib.Core.List.{Memᴰ}
use qdt_test.Store.Model.{Db, Content, Version, ContentWithVersion}
use qdt_test.Store.Contents.{pair, is_current, get_content_with_current_version}
use qdt_test.Store.Versioned.{Consistent, SameContent, SameNumber, is_number}
use qdt_test.Store.Contents.Register.{view, document_of}

-- The current version of a content is what the database stands for at its id.
pub view-current :
    (db : Db) (c : Content) (v : Version)
    → Consistent db
    → Memᴰ c db.contents
    → Memᴰ v db.content_versions
    → v.content_id ≡ c.id
    → v.version ≡ c.current_version
    → view db c.id ≡ some (c.current_version, v.fields)
unfolding view get_content_with_current_version
view-current db c v x m k owner number =
    let row =
      in-join is_current pair db.contents db.content_versions m k
        (rw (owner, number, text_eq_refl c.id) (ground arith)) in
    let (r, found) =
      in-find (λ (r : ContentWithVersion). text_eq r.content.id c.id) _ row (text_eq_refl c.id) in
    let (n, named) = find-in r (λ (r : ContentWithVersion). text_eq r.content.id c.id) _ found in
    let (d, w, in_contents, in_versions, on, e) =
      join-in is_current pair db.contents db.content_versions n in
    let same : d ≡ c =
      Apart-eq SameContent db.contents x.content_ids (λ a b e. sym e) in_contents m
        (ground (arith, e)) in
    let same_version : w ≡ v =
      Apart-eq SameNumber db.content_versions x.numbers (λ a b s. (sym s.0, sym s.1)) in_versions k
        (ground (arith, same, owner, number), ground (arith, same, owner, number)) in
    rw found (
      ap (λ t. some (document_of t)) e
      ∙ ap (λ (t : Content). some (t.current_version, w.fields)) same
      ∙ ap (λ (t : Version). some (c.current_version, t.fields)) same_version)

-- Every content has a current version to stand for.
pub view-there :
    (db : Db) (c : Content)
    → Consistent db
    → Memᴰ c db.contents
    → (v : Version) × Memᴰ v db.content_versions
      × (v.content_id ≡ c.id)
      × (v.version ≡ c.current_version)
      × (view db c.id ≡ some (c.current_version, v.fields))
view-there db c x m =
    let (v, k, h) = any-in (is_number c.id c.current_version) db.content_versions (x.current c m) in
    let owner : v.content_id ≡ c.id = ground arith in
    let number : v.version ≡ c.current_version = ground arith in
    (v, k, owner, number, view-current db c v x m k owner number)

-- No content, no document.
pub view-none :
    (db : Db) (id : Text)
    → ((c : Content) → Memᴰ c db.contents → text_eq c.id id ≡ false)
    → view db id ≡ none
unfolding view get_content_with_current_version
view-none db id absent =
    elim (Option-cases (
      find (λ (r : ContentWithVersion). text_eq r.content.id id)
        (join is_current pair db.contents db.content_versions))) [
          | inl missing ↦ rw missing refl
          | inr (r, found) ↦
              let (n, named) =
                find-in r (λ (r : ContentWithVersion). text_eq r.content.id id) _ found in
              let (d, w, in_contents, in_versions, on, e) =
                join-in is_current pair db.contents db.content_versions n in
              absurd (ground (arith, e, absent d in_contents))
        ]
