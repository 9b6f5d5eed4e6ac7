-- ===== src/Store/Versioned/Point.antt =====
-- Moving or clearing a published pointer keeps the tables consistent.
use qdt_test.Common.{
  ℕ, Text, text_eq, text_dec, if◌then◌else◌, Option, some, Bool, true, ◌≡◌, sym, ◌∙◌, List, arith,
  any, update, Apart-update, of_in-update,
}
use mathlib.Core.List.{Memᴰ}
use qdt_test.Store.Model.{Content, Version, is_some}
use qdt_test.Store.Versioned.{Versioned, SameContent, SameSlug, belongs, any_same_id}
use qdt_test.Store.Statements.{point_at}

pub Versioned-point :
    (contents : List Content) (versions : List Version) (next : ℕ) (id : Text)
    (version_id published_at : Option ℕ) (now : ℕ)
    → is_some version_id ≡ is_some published_at
    → ((i : ℕ) → version_id ≡ some i → any (belongs i id) versions ≡ true)
    → Versioned contents versions next
    → Versioned
        (update (λ c. text_eq c.id id) (point_at version_id published_at now) contents)
        versions
        next
Versioned-point contents versions next id version_id published_at now both fits x = record {
  content_ids =
      Apart-update SameContent p f contents (λ a b e. sym (keeps_id a) ∙ e ∙ keeps_id b)
        x.content_ids;
  slugs =
      Apart-update SameSlug p f contents (λ a b e. sym (keeps_slug a) ∙ e ∙ keeps_slug b) x.slugs;
  rows = x.rows;
  numbers = x.numbers;
  below_next = x.below_next;
  owned = λ w k. any_same_id w.content_id p f contents keeps_id ∙ x.owned w k;
  newest = λ d w k l e.
      let (a, m, same) = of_in-update p f contents k in
      ground (arith, x.newest a w m l, keeps_id a);
  current = λ d k.
      let (a, m, same) = of_in-update p f contents k in
      rw (same, keeps_id a, keeps_version a) (x.current a m);
  pointer = λ d i k e.
      let (a, m, same) = of_in-update p f contents k in
      rw (same, keeps_id a) (pointer_row a i m d same e);
  stamped = λ d k. let (a, m, same) = of_in-update p f contents k in ground (arith, x.stamped a m);
}
  where
    p : Content → Bool
    p c = text_eq c.id id

    f : Content → Content
    f = point_at version_id published_at now

    keeps_id : (a : Content) → (if p a then f a else a).id ≡ a.id
    keeps_id a = ground arith

    keeps_slug : (a : Content) → (if p a then f a else a).slug ≡ a.slug
    keeps_slug a = ground arith

    keeps_version : (a : Content) → (if p a then f a else a).current_version ≡ a.current_version
    keeps_version a = ground arith

    pointer_row :
        (a : Content) (i : ℕ)
        → Memᴰ a contents
        → (d : Content) → d ≡ (if p a then f a else a)
        → d.published_version_id ≡ some i
        → any (belongs i a.id) versions ≡ true
    pointer_row a i m d same e = elim (text_dec a.id id) [
      | yes this ↦ rw this (fits i (ground arith))
      | no other ↦ x.pointer a i m (ground arith)
    ]
