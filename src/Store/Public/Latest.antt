-- ===== src/Store/Public/Latest.antt =====
-- The validator of the public list, MAX(updated_at) over the published contents.
use qdt_test.Common.{
  ℕ, ◌≤◌, Text, text_eq, ◌≡◌, refl, ap, ◌∙◌, none, some, true, false, List, [], ◌∷◌, arith, inl,
  inr, update, in-update, of_in-update, join-in, in-join, Bool-cases,
}
use mathlib.Core.List.{Memᴰ}
use mathlib.Core.List.Memᴰ
use qdt_test.Store.Model.{Db, Content, Version, ContentWithVersion}
use qdt_test.Store.Statements.{point_at}
use qdt_test.Store.Contents.{pair}
use qdt_test.Store.Public.{is_public, public_rows, max_updated, latest_published_at}

max_updated-upper :
    (rs : List ContentWithVersion) (r : ContentWithVersion)
    → Memᴰ r rs
    → r.content.updated_at ≤ max_updated rs
unfolding max_updated
max_updated-upper [] r m = elim m [ ]
max_updated-upper (q ∷ rs) r (Memᴰ.head e) = rw e (ground arith)
max_updated-upper (q ∷ rs) r (Memᴰ.tail m) = ground (arith, max_updated-upper rs r m)

max_updated-least :
    (rs : List ContentWithVersion) (b : ℕ)
    → ((r : ContentWithVersion) → Memᴰ r rs → r.content.updated_at ≤ b)
    → max_updated rs ≤ b
unfolding max_updated
max_updated-least [] b h = omega arith
max_updated-least (q ∷ rs) b h =
    ground (arith, h q (Memᴰ.head refl), max_updated-least rs b (λ r m. h r (Memᴰ.tail m)))

module _ (id : Text) (now : ℕ) (db after : Db)
    (rows : after.contents ≡ update (λ c. text_eq c.id id) (point_at none none now) db.contents)
    (versions : after.content_versions ≡ db.content_versions) where
  -- The rows of the other contents stay in the join.
  other-stays :
      (c : Content) (v : Version)
      → Memᴰ c db.contents
      → Memᴰ v db.content_versions
      → is_public c v ≡ true
      → text_eq c.id id ≡ false
      → Memᴰ (pair c v) (public_rows after)
  unfolding public_rows
  other-stays c v m k on other =
      let there =
        in-update (λ (d : Content). text_eq d.id id) (point_at none none now) db.contents m in
      in-join is_public pair after.contents after.content_versions
        (rw rows (Memᴰ.cast (rw other refl) there)) (rw versions k) on

  withdrawn-least : latest_published_at after ≤ latest_published_at db
  unfolding latest_published_at public_rows
  withdrawn-least = max_updated-least (public_rows after) (latest_published_at db) (λ r m.
      let (d, v, in_contents, in_versions, on, e) =
        join-in is_public pair after.contents after.content_versions m in
      let (c, in_before, same) =
        of_in-update (λ (a : Content). text_eq a.id id) (point_at none none now) db.contents
          (rw rows at in_contents) in
      elim (Bool-cases (text_eq c.id id)) [
        | inl hit ↦ absurd (ground arith)
        | inr other ↦
            let unchanged : d ≡ c = same ∙ (rw other refl) in
            max_updated-upper (public_rows db) r (
              Memᴰ.cast (e ∙ ap (λ (a : Content). pair a v) unchanged) (
                in-join is_public pair db.contents db.content_versions in_before
                  (rw versions at in_versions) (rw unchanged at on)))
      ])

  -- If another published content is at least as new as the withdrawn one, the maximum stays.
  pub withdrawn-latest :
      (c d : Content) (w : Version)
      → Memᴰ d db.contents
      → Memᴰ w db.content_versions
      → d.published_version_id ≡ some w.id
      → text_eq d.id id ≡ false
      → ((e : Content) → Memᴰ e db.contents → text_eq e.id id ≡ true → e ≡ c)
      → c.updated_at ≤ d.updated_at
      → latest_published_at after ≡ latest_published_at db
  unfolding latest_published_at public_rows
  withdrawn-latest c d w m k pointed other only newer =
      let stays =
        max_updated-upper (public_rows after) (pair d w)
          (other-stays d w m k (rw pointed (ground arith)) other) in
      let most = max_updated-least (public_rows db) (latest_published_at after) (λ r n.
        let (e, v, in_contents, in_versions, on, same) =
          join-in is_public pair db.contents db.content_versions n in
        elim (Bool-cases (text_eq e.id id)) [
          | inl hit ↦
              let is_c : e ≡ c = only e in_contents hit in
              rw (same, is_c) (omega (arith, stays, newer))
          | inr kept ↦ rw same (
              max_updated-upper (public_rows after) (pair e v)
                (other-stays e v in_contents in_versions on kept))
        ]) in
      omega (arith, most, withdrawn-least)
