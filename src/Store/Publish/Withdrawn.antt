-- ===== src/Store/Publish/Withdrawn.antt =====
-- The tables after an unpublish.
use qdt_test.Common.{
  ℕ, Text, text_eq, text_eq_refl, ◌≡◌, refl, sym, ◌⊎◌, none, some, false, List, ok, inl, inr, arith,
  find, update, find-in, Option-cases, Bool-cases, in-update, Apart-eq,
}
use mathlib.Core.List.{Memᴰ}
use mathlib.Core.List.Memᴰ
use qdt_test.Store.Model.{Db, Content, is_some}
use qdt_test.Store.Tx.{Conn}
use qdt_test.Store.Tx.Rules.{tx-run}
use qdt_test.Store.Statements.{insert_event, set_published, point_at}
use qdt_test.Store.Publish.{unpublish, unpublish_body}
use qdt_test.Store.Versioned.{Consistent, SameContent}

abbrev withdraw : Text → ℕ → List Content → List Content
withdraw id now rows = update (λ d. text_eq d.id id) (point_at none none now) rows

unpublish_body-rows :
    (id actor : Text) (now : ℕ) (db after : Db) (r : Content)
    → unpublish_body id actor now db ≡ ok (r, after)
    → ((found : Content) × (find (λ (d : Content). text_eq d.id id) db.contents ≡ some found)
        × (is_some found.published_version_id ≡ false))
      ⊎ ((after.contents ≡ withdraw id now db.contents)
          × (after.content_versions ≡ db.content_versions))
unfolding unpublish_body insert_event set_published
unpublish_body-rows id actor now db after r run =
    elim (Option-cases (find (λ (d : Content). text_eq d.id id) db.contents)) [
      | inl missing ↦ absurd (ground (arith, missing))
      | inr (found, e) ↦ elim (Bool-cases (is_some found.published_version_id)) [
        | inl there ↦ inr (ground (arith, e, there))
        | inr unset ↦ inl (found, e, unset)
      ]
    ]

module _ (conn : Conn) (id actor : Text) (now : ℕ) (db after : Db) (r c : Content) (v : ℕ)
    (x : Consistent db) (done : unpublish conn id actor now db ≡ (ok r, after))
    (listed : Memᴰ c db.contents) (named : c.id ≡ id)
    (published : c.published_version_id ≡ some v) where
  -- Where the content is published its pointer is cleared, and the versions stay.
  pub unpublish-rows :
      (after.contents ≡ withdraw id now db.contents)
      × (after.content_versions ≡ db.content_versions)
  unfolding unpublish
  unpublish-rows =
      elim (unpublish_body-rows id actor now db after r
        (tx-run conn (unpublish_body id actor now) db r after done)) [
          | inr rows ↦ rows
          | inl (found, e, unset) ↦
              let (m, h) = find-in found (λ (d : Content). text_eq d.id id) db.contents e in
              let same : found ≡ c =
                Apart-eq SameContent db.contents x.content_ids (λ a b e. sym e) m listed
                  (ground arith) in
              absurd (ground (arith, same))
        ]

  -- The withdrawn content is in the table, with no pointer.
  pub withdrawn-listed :
      (d : Content) × Memᴰ d after.contents × (d.slug ≡ c.slug) × (d.published_version_id ≡ none)
  withdrawn-listed =
      let (rows, _) = unpublish-rows in
      let there =
        in-update (λ (d : Content). text_eq d.id id) (point_at none none now) db.contents listed in
      (
        point_at none none now c,
        rw rows (Memᴰ.cast (rw (named, text_eq_refl id) refl) there),
        refl,
        refl,
      )
