-- ===== src/Store/Versioned/Create.antt =====
-- New content keeps the tables consistent.
use qdt_test.Common.{
  ℕ, suc, ◌≤◌, text_eq, none, true, false, ◌≡◌, ◌≢◌, ◌∙◌, ◌⊎◌, inl, inr, List, [], ◌∷◌, ◌++◌, arith,
  any, Apart-append_last, of_in-append_last, in-any, any-false, any-append_left, in-append_last,
}
use mathlib.Core.List.{Memᴰ}
use qdt_test.Store.Model.{Content, Version}
use qdt_test.Store.Versioned.{Versioned, SameContent, SameSlug, SameRow, SameNumber}

-- A new row with its first version.
pub Versioned-create :
    (contents : List Content) (versions : List Version) (next : ℕ) (c : Content) (v : Version)
    → any (λ d. text_eq d.id c.id) contents ≡ false
    → any (λ d. text_eq d.slug c.slug) contents ≡ false
    → c.current_version ≡ 1
    → c.published_version_id ≡ none
    → c.published_at ≡ none
    → v.id ≡ next
    → v.content_id ≡ c.id
    → v.version ≡ 1
    → Versioned contents versions next
    → Versioned (contents ++ c ∷ []) (versions ++ v ∷ []) (suc next)
Versioned-create contents versions next c v new_id new_slug one unpublished unstamped row owner
      first x =
    record {
      content_ids =
          Apart-append_last SameContent contents c
            (λ d m e. let miss = any-false d _ contents new_id m in ground arith) x.content_ids;
      slugs =
          Apart-append_last SameSlug contents c
            (λ d m e. let miss = any-false d _ contents new_slug m in ground arith) x.slugs;
      rows = Apart-append_last SameRow versions v (λ w m e. omega (arith, x.below_next w m)) x.rows;
      numbers =
          Apart-append_last SameNumber versions v (λ w m e. foreign w m (e.0 ∙ owner)) x.numbers;
      below_next = λ w m. elim (of_in-append_last versions v m) [
        | inl n ↦ omega (arith, x.below_next w n)
        | inr e ↦ rw (e, row) (omega arith)
      ];
      owned = λ w m. elim (of_in-append_last versions v m) [
        | inl n ↦ any-append_left _ contents (c ∷ []) (x.owned w n)
        | inr e ↦ in-any c _ (contents ++ c ∷ []) (in-append_last contents c) (ground arith)
      ];
      newest = λ d w m n e.
          newest_row d w (of_in-append_last contents c m) (of_in-append_last versions v n) e;
      current = λ d m. elim (of_in-append_last contents c m) [
        | inl n ↦ any-append_left _ versions (v ∷ []) (x.current d n)
        | inr e ↦ in-any v _ (versions ++ v ∷ []) (in-append_last versions v) (ground arith)
      ];
      pointer = λ d id m e. elim (of_in-append_last contents c m) [
        | inl n ↦ any-append_left _ versions (v ∷ []) (x.pointer d id n e)
        | inr same ↦ absurd (ground arith)
      ];
      stamped = λ d m. elim (of_in-append_last contents c m) [
        | inl n ↦ x.stamped d n
        | inr e ↦ rw (e, unpublished, unstamped)
      ];
    }
  where
    foreign : (w : Version) → Memᴰ w versions → w.content_id ≢ c.id
    foreign w m e =
        let seen : any (λ (d : Content). text_eq d.id c.id) contents ≡ true =
          rw e at (x.owned w m) in
        cc (new_id, seen)

    unknown : (d : Content) → Memᴰ d contents → d.id ≢ c.id
    unknown d m e = let miss = any-false d _ contents new_id m in ground arith

    newest_row :
        (d : Content) (w : Version)
        → Memᴰ d contents ⊎ (d ≡ c)
        → Memᴰ w versions ⊎ (w ≡ v)
        → w.content_id ≡ d.id
        → w.version ≤ d.current_version
    newest_row d w (inl m) (inl n) e = x.newest d w m n e
    newest_row d w (inl m) (inr n) e = absurd (unknown d m (cc))
    newest_row d w (inr m) (inl n) e = absurd (foreign w n (cc))
    newest_row d w (inr m) (inr n) e = ground arith
