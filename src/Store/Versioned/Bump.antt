-- ===== src/Store/Versioned/Bump.antt =====
-- A new version keeps the tables consistent.
use qdt_test.Common.{
  ℕ, suc, ◌+◌, ◌≤◌, Text, text_eq, if◌then◌else◌, Bool, true, ◌≡◌, sym, ◌∙◌, ◌⊎◌, inl, inr, List,
  [], ◌∷◌, ◌++◌, arith, any, update, Apart-append_last, Apart-update, Apart-eq, of_in-append_last,
  of_in-update, in-any, any-append_left, in-append_last, Bool-cases,
}
use mathlib.Core.List.{Memᴰ}
use qdt_test.Store.Model.{Content, Version}
use qdt_test.Store.Versioned.{
  Versioned, SameContent, SameSlug, SameRow, SameNumber, is_number, any_same_id,
}
use qdt_test.Store.Contents.{matches_token, bumped}

-- The row whose token matched moves to the next version, which is appended.
module _ (id : Text) (n now : ℕ) where
  new_row : Content → Content
  new_row d = if matches_token id n d then bumped now d else d

  pub Versioned-bump :
      (contents : List Content) (versions : List Version) (next : ℕ) (v : Version) (c : Content)
      → Memᴰ c contents
      → matches_token id n c ≡ true
      → v.id ≡ next
      → v.content_id ≡ id
      → v.version ≡ n + 1
      → Versioned contents versions next
      → Versioned
          (update (matches_token id n) (bumped now) contents)
          (versions ++ v ∷ [])
          (suc next)
  unfolding new_row
  Versioned-bump contents versions next v c m hit row owner number x = record {
    content_ids =
        Apart-update SameContent p f contents (λ a b e. sym (keeps_id a) ∙ e ∙ keeps_id b)
          x.content_ids;
    slugs =
        Apart-update SameSlug p f contents (λ a b e. sym (keeps_slug a) ∙ e ∙ keeps_slug b) x.slugs;
    rows = Apart-append_last SameRow versions v (λ w k e. omega (arith, x.below_next w k)) x.rows;
    numbers =
        Apart-append_last SameNumber versions v (λ w k e. ground (arith, x.newest c w m k))
          x.numbers;
    below_next = λ w k. elim (of_in-append_last versions v k) [
      | inl old ↦ omega (arith, x.below_next w old)
      | inr e ↦ rw (e, row) (omega arith)
    ];
    owned = λ w k.
        any_same_id w.content_id p f contents keeps_id
        ∙ owned_row w (of_in-append_last versions v k);
    newest = λ d w k l e.
        let (a, in_contents, same) = of_in-update p f contents k in
        newest_row a w in_contents (of_in-append_last versions v l) d same e;
    current = λ d k.
        let (a, in_contents, same) = of_in-update p f contents k in
        rw same (current_row a in_contents);
    pointer = λ d i k e.
        let (a, in_contents, same) = of_in-update p f contents k in
        any-append_left _ versions (v ∷ [])
          (rw (same, keeps_id a) (x.pointer a i in_contents (ground arith)));
    stamped = λ d k.
        let (a, in_contents, same) = of_in-update p f contents k in
        rw same (ground (arith, x.stamped a in_contents));
  }
    where
      p : Content → Bool
      p = matches_token id n

      f : Content → Content
      f = bumped now

      keeps_id : (a : Content) → (if p a then f a else a).id ≡ a.id
      keeps_id a = ground arith

      keeps_slug : (a : Content) → (if p a then f a else a).slug ≡ a.slug
      keeps_slug a = ground arith

      owned_row :
          (w : Version)
          → Memᴰ w versions ⊎ (w ≡ v)
          → any (λ (d : Content). text_eq d.id w.content_id) contents ≡ true
      owned_row w (inl old) = x.owned w old
      owned_row w (inr e) = in-any c _ contents m (ground arith)

      one : (a : Content) → Memᴰ a contents → a.id ≡ id → a ≡ c
      one a k e = Apart-eq SameContent contents x.content_ids (λ a b e. sym e) k m (ground arith)

      newest_row :
          (a : Content) (w : Version)
          → Memᴰ a contents
          → Memᴰ w versions ⊎ (w ≡ v)
          → (d : Content) → d ≡ (if p a then f a else a)
          → w.content_id ≡ d.id
          → w.version ≤ d.current_version
      newest_row a w k (inl old) d same e = rw same (ground (arith, x.newest a w k old, keeps_id a))
      newest_row a w k (inr new) d same e = ground (arith, one a k, keeps_id a)

      current_row :
          (a : Content)
          → Memᴰ a contents
          → any
              (is_number (if p a then f a else a).id (if p a then f a else a).current_version)
              (versions ++ v ∷ [])
            ≡ true
      current_row a k = elim (Bool-cases (p a)) [
        | inl yes_it ↦
            rw yes_it (in-any v _ (versions ++ v ∷ []) (in-append_last versions v) (ground arith))
        | inr other ↦ rw other (any-append_left _ versions (v ∷ []) (x.current a k))
      ]
