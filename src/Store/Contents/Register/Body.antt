-- ===== src/Store/Contents/Register/Body.antt =====
-- What the statements of UpdateContent do to the view.
use qdt_test.Common.{
  ℕ, suc, ◌+◌, Text, text_eq, text_eq_refl, ◌==◌, ◌&&◌, ◌≡◌, refl, sym, ◌∙◌, subst, some, Bool,
  true, false, List, [], ◌∷◌, ◌++◌, ok, err, inl, inr, arith, any, count, update, in-update,
  of_in-update, find-in, in-find, in-any, any-in, any-false, count-zero, count_none, Apart-eq,
  Bool-cases, in-append_last, if◌then◌else◌,
}
use mathlib.Core.List.{Memᴰ}
use mathlib.Core.List.Memᴰ
use qdt_test.Store.Model.{
  Db, Content, Version, VersionFields, ContentWithVersion, not_found, version_conflict,
}
use qdt_test.Store.Statements.{insert_version_row, version_row}
use qdt_test.Store.Versioned.{Consistent, SameContent}
use qdt_test.Store.Contents.{update_content_body, matches_token, bumped}
use qdt_test.Store.Contents.Register.{view, document_of}
use qdt_test.Store.Contents.Register.View.{view-current, view-there, view-none}

counted :
    (p : Content → Bool) (rows : List Content) (c : Content)
    → Memᴰ c rows
    → p c ≡ true
    → (count p rows == 0) ≡ false
counted p rows c m h = elim (Bool-cases (count p rows == 0)) [
  | inl gone ↦ let miss = count-zero c p rows gone m in absurd (cc (miss, h))
  | inr kept ↦ kept
]

module _ (id : Text) (n : ℕ) (f : VersionFields) (actor : Text) (now : ℕ) (db : Db) where
  -- An edit with the current number is stored.
  module _ (c : Content) (x : Consistent db) (m : Memᴰ c db.contents) (named : c.id ≡ id)
      (current : c.current_version ≡ n) where
    next_free :
        any (λ (w : Version). text_eq w.content_id id && w.version == n + 1) db.content_versions
        ≡ false
    next_free =
        elim (Bool-cases (
          any (λ (w : Version). text_eq w.content_id id && w.version == n + 1)
            db.content_versions)) [
              | inl taken ↦
                  let (w, k, h) =
                    any-in (λ (w : Version). text_eq w.content_id id && w.version == n + 1)
                      db.content_versions taken in
                  absurd (ground (arith, x.newest c w m k))
              | inr free ↦ free
            ]

    pub stored :
        (r : ContentWithVersion) × (after : Db) × (update_content_body id n f actor now db
          ≡ ok (r, after))
        × (document_of r ≡ (n + 1, f))
    unfolding update_content_body insert_version_row
    stored =
        let hit : matches_token id n c ≡ true =
          rw (named, current, text_eq_refl id) (ground arith) in
        let row : Memᴰ (bumped now c) (update (matches_token id n) (bumped now) db.contents) =
          Memᴰ.cast (rw hit refl) (in-update (matches_token id n) (bumped now) db.contents m) in
        let (d, found) =
          in-find (λ (e : Content). text_eq e.id id)
            (update (matches_token id n) (bumped now) db.contents) row
            (rw named (text_eq_refl id)) in
        let (k, same_id) =
          find-in d (λ (e : Content). text_eq e.id id)
            (update (matches_token id n) (bumped now) db.contents) found in
        let (a, in_before, edited) = of_in-update (matches_token id n) (bumped now) db.contents k in
        let same : a ≡ c =
          Apart-eq SameContent db.contents x.content_ids (λ s t e. sym e) in_before m
            (ground (arith, edited)) in
        (
          record { content = d; version = version_row db.next_version_id id (n + 1) f actor now },
          record db {
            contents = update (matches_token id n) (bumped now) db.contents;
            content_versions =
                db.content_versions ++ version_row db.next_version_id id (n + 1) f actor now ∷ [];
            next_version_id = suc db.next_version_id;
          },
          rw
              (
                counted (matches_token id n) db.contents c m hit,
                next_free,
                in-any (bumped now c) (λ (e : Content). text_eq e.id id)
                    (update (matches_token id n) (bumped now) db.contents) row
                    (rw named (text_eq_refl id)),
                found,
              )
              refl,
          ground (arith, edited, same, hit),
        )

  -- The other contents stand for what they stood for.
  pub view-other :
      (after : Db) (v : Version)
      → Consistent db
      → Consistent after
      → after.contents ≡ update (matches_token id n) (bumped now) db.contents
      → after.content_versions ≡ db.content_versions ++ v ∷ []
      → (j : Text) → text_eq id j ≡ false
      → view after j ≡ view db j
  view-other after v x x' rows versions j other =
      elim (Bool-cases (any (λ (a : Content). text_eq a.id j) db.contents)) [
        | inl there ↦
            let (a, m, h) = any-in (λ (a : Content). text_eq a.id j) db.contents there in
            let (w, k, owner, number, e) = view-there db a x m in
            let kept : (if matches_token id n a then bumped now a else a) ≡ a = ground arith in
            let m' : Memᴰ a after.contents =
              rw rows (
                Memᴰ.cast (sym kept) (in-update (matches_token id n) (bumped now) db.contents m)) in
            let k' : Memᴰ w after.content_versions = rw versions (Memᴰ.append_left _ k) in
            let same : view after a.id ≡ view db a.id =
              view-current after a w x' m' k' owner number ∙ sym e in
            let at : a.id ≡ j = ground arith in subst (λ t. view after t ≡ view db t) at same
        | inr gone ↦
            view-none after j (λ a m.
              let (b, in_before, e) =
                of_in-update (matches_token id n) (bumped now) db.contents (rw rows at m) in
              let miss = any-false b (λ (a : Content). text_eq a.id j) db.contents gone in_before in
              ground arith)
            ∙ sym (
                view-none db j
                  (λ a m. any-false a (λ (b : Content). text_eq b.id j) db.contents gone m))
      ]

  -- The edited content stands for the new fields under the next number.
  pub view-edited :
      (after : Db) (c : Content)
      → Consistent after
      → Memᴰ c db.contents
      → c.id ≡ id
      → c.current_version ≡ n
      → after.contents ≡ update (matches_token id n) (bumped now) db.contents
      → after.content_versions
        ≡ db.content_versions ++ version_row db.next_version_id id (n + 1) f actor now ∷ []
      → view after id ≡ some (n + 1, f)
  view-edited after c x' m named current rows versions =
      let hit : matches_token id n c ≡ true = rw (named, current, text_eq_refl id) (ground arith) in
      let m' : Memᴰ (bumped now c) after.contents =
        rw rows
          (Memᴰ.cast (rw hit refl) (in-update (matches_token id n) (bumped now) db.contents m)) in
      let k' =
        in-append_last db.content_versions
          (version_row db.next_version_id id (n + 1) f actor now) in
      let e =
        view-current after (bumped now c) (version_row db.next_version_id id (n + 1) f actor now) x'
          m' (rw versions k') (sym named) (rw current refl) in
      rw (named, current) at e

  -- Where no content has the id, the edit is answered by not found; where the number is another, by a
  -- version conflict.
  pub missing_body :
      any (λ (c : Content). text_eq c.id id) db.contents ≡ false
      → update_content_body id n f actor now db ≡ err not_found
  unfolding update_content_body
  missing_body gone =
      let none_at : count (λ (c : Content). text_eq c.id id) db.contents ≡ 0 =
        count_none (λ (c : Content). text_eq c.id id) db.contents
          (λ c m. any-false c (λ (c : Content). text_eq c.id id) db.contents gone m) in
      let no_match : count (matches_token id n) db.contents ≡ 0 =
        count_none (matches_token id n) db.contents (λ c m.
          let miss = any-false c (λ (c : Content). text_eq c.id id) db.contents gone m in
          ground arith) in
      rw (no_match, none_at) refl

  pub conflict_body :
      (c : Content)
      → Consistent db
      → Memᴰ c db.contents
      → c.id ≡ id
      → (c.current_version == n) ≡ false
      → update_content_body id n f actor now db ≡ err version_conflict
  unfolding update_content_body
  conflict_body c x m named other =
      let no_match : count (matches_token id n) db.contents ≡ 0 =
        count_none (matches_token id n) db.contents (λ d k. elim (Bool-cases (text_eq d.id id)) [
          | inl same_id ↦
              let same : d ≡ c =
                Apart-eq SameContent db.contents x.content_ids (λ s t e. sym e) k m
                  (ground arith) in
              ground (arith, same)
          | inr differs ↦ ground arith
        ]) in
      rw
        (
          no_match,
          counted (λ (d : Content). text_eq d.id id) db.contents c m (rw named (text_eq_refl id)),
        )
        refl
