-- ===== src/Store/Versioned.antt =====
-- What contents and content_versions say of one another, and the changes that keep it.
pub mod Create
pub mod Bump
pub mod Point
use qdt_test.Common.{
  ℕ, suc, ◌+◌, ◌≤◌, ◌<◌, Text, text_eq, text_dec, ◌==◌, if◌then◌else◌, Option, none, some, Bool,
  true, false, ◌&&◌, ◌≡◌, ◌≢◌, refl, sym, ◌∙◌, ◌⊎◌, inl, inr, List, [], ◌∷◌, ◌++◌, arith, any,
  update, Apart, Apart-append_last, Apart-update, Apart-eq, of_in-append_last, of_in-update, in-any,
  any-in, any-false, any-append_left, in-append_last, in-update, Bool-cases, subst,
}
use mathlib.Core.List.{Memᴰ}
use mathlib.Core.List.Memᴰ
use qdt_test.Store.Model.{Db, Content, Version, is_some}

abbrev pub SameContent : Content → Content → Type 0
SameContent c d = c.id ≡ d.id

abbrev pub SameSlug : Content → Content → Type 0
SameSlug c d = c.slug ≡ d.slug

abbrev pub SameRow : Version → Version → Type 0
SameRow v w = v.id ≡ w.id

abbrev pub SameNumber : Version → Version → Type 0
SameNumber v w = (v.content_id ≡ w.content_id) × (v.version ≡ w.version)

-- The version row of that id, if it belongs to that content.
abbrev pub belongs : ℕ → Text → Version → Bool
belongs id content_id v = v.id == id && text_eq v.content_id content_id

abbrev pub is_number : Text → ℕ → Version → Bool
is_number content_id n v = text_eq v.content_id content_id && v.version == n

pub record Versioned (contents : List Content) (versions : List Version) (next : ℕ) : Type 0 where
  pub content_ids : Apart SameContent contents
  pub slugs : Apart SameSlug contents
  pub rows : Apart SameRow versions
  pub numbers : Apart SameNumber versions
  pub below_next : (v : Version) → Memᴰ v versions → v.id < next
  pub owned : (v : Version) → Memᴰ v versions → any (λ c. text_eq c.id v.content_id) contents ≡ true
  pub newest :
      (c : Content) (v : Version)
      → Memᴰ c contents
      → Memᴰ v versions
      → v.content_id ≡ c.id
      → v.version ≤ c.current_version
  pub current :
      (c : Content) → Memᴰ c contents → any (is_number c.id c.current_version) versions ≡ true
  pub pointer :
      (c : Content) (id : ℕ)
      → Memᴰ c contents
      → c.published_version_id ≡ some id
      → any (belongs id c.id) versions ≡ true
  pub stamped :
      (c : Content) → Memᴰ c contents → is_some c.published_version_id ≡ is_some c.published_at

abbrev pub Consistent : Db → Type 0
Consistent db = Versioned db.contents db.content_versions db.next_version_id

pub any_same_id :
    (id : Text) (p : Content → Bool) (f : Content → Content) (rows : List Content)
    → ((c : Content) → (if p c then f c else c).id ≡ c.id)
    → any (λ (c : Content). text_eq c.id id) (update p f rows)
      ≡ any (λ (c : Content). text_eq c.id id) rows
any_same_id id p f [] h = refl
any_same_id id p f (c ∷ rows) h = rw (h c, any_same_id id p f rows h)
