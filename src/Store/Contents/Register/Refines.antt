-- ===== src/Store/Contents/Register/Refines.antt =====
-- UpdateContent against the compare-and-swap.
use qdt_test.Store.Contents.Register.Body.{
  stored, view-other, view-edited, missing_body, conflict_body,
}
use qdt_test.Common.{
  ℕ, ◌+◌, Text, text_eq, ◌==◌, ◌≡◌, refl, ap, ◌∙◌, subst, none, some, Bool, true, false, Result, ok,
  err, inl, inr, arith, any, any-in, any-false, Bool-cases, if◌then◌else◌,
}
use mathlib.Core.List.{Memᴰ}
use mathlib.Core.Path.{fun_ext}
use qdt_test.Store.Model.{
  Db, Content, VersionFields, ContentWithVersion, not_found, version_conflict, Error,
}
use qdt_test.Store.Tx.{healthy}
use qdt_test.Store.Tx.Rules.{tx-ok, tx-refused}
use qdt_test.Store.Statements.{version_row}
use qdt_test.Store.Versioned.{Consistent}
use qdt_test.Store.Contents.Consistent.{update_content_body-rows, update_content-Consistent}
use qdt_test.Store.Contents.{update_content, update_content_body}
use qdt_test.Store.Contents.Register.{view, swap, swapped, set, answer_of, Document, Register}
use qdt_test.Store.Contents.Register.View.{view-there, view-none}

module _ (id : Text) (n : ℕ) (f : VersionFields) (actor : Text) (now : ℕ) (db : Db) where
  -- What an edit does, as the view sees it: the abstract operation's answer and register.
  abbrev pub Simulates : Result Error ContentWithVersion × Db → Type 0
  Simulates (r, after) =
      (answer_of r ≡ (swap id n f (view db)).0) × (view after ≡ (swap id n f (view db)).1)

  swap-some :
      (m : ℕ) (g : VersionFields)
      → view db id ≡ some (m, g)
      → swap id n f (view db) ≡ swapped id n f (view db) (some (m, g))
  unfolding swap
  swap-some m g was = ap (swapped id n f (view db)) was

  swap-none : view db id ≡ none → swap id n f (view db) ≡ (err not_found, view db)
  unfolding swap
  swap-none was = ap (swapped id n f (view db)) was

  set_there :
      (d : Document) (reg new : Register)
      → new id ≡ some d
      → ((j : Text) → text_eq id j ≡ false → new j ≡ reg j)
      → new ≡ set id d reg
  set_there d reg new here others = fun_ext (λ j. elim (Bool-cases (text_eq id j)) [
    | inl same ↦ let at : id ≡ j = ground arith in rw same (subst (λ t. new t ≡ some d) at here)
    | inr other ↦ rw other (others j other)
  ])

  if_true : {A : Type 0} → (b : Bool) → (t e : A) → b ≡ true → (if b then t else e) ≡ t
  if_true b t e h = rw h refl

  Simulates-stored :
      (c : Content)
      → Consistent db
      → Memᴰ c db.contents
      → c.id ≡ id
      → c.current_version ≡ n
      → Simulates (update_content healthy id n f actor now db)
  unfolding update_content
  Simulates-stored c x m named current =
      let (r, after, run, doc) = stored id n f actor now db c x m named current in
      let (hit, rows, versions, next) = update_content_body-rows id n f actor now db after r run in
      let out = tx-ok healthy (update_content_body id n f actor now) db r after refl refl run in
      let x' : Consistent after =
        subst Consistent (ap (λ p. p.1) out)
          (update_content-Consistent healthy id n f actor now db x) in
      let edited = view-edited id n f actor now db after c x' m named current rows versions in
      let (v, k, owner, number, before) = view-there db c x m in
      let was : view db id ≡ some (n, v.fields) = rw (named, current) at before in
      let replaced =
        set_there (n + 1, f) (view db) (view after) edited
          (λ j other.
            view-other id n f actor now db after
              (version_row db.next_version_id id (n + 1) f actor now) x x' rows versions j other) in
      let spec : swap id n f (view db) ≡ (ok (n + 1, f), set id (n + 1, f) (view db)) =
        swap-some n v.fields was
        ∙ if_true (n == n) (ok (n + 1, f), set id (n + 1, f) (view db))
            (err version_conflict, view db) (ground arith) in
      rw (out, spec, doc) (refl, replaced)

  Simulates-refused :
      (e : Error)
      → update_content_body id n f actor now db ≡ err e
      → swap id n f (view db) ≡ (err e, view db)
      → Simulates (update_content healthy id n f actor now db)
  unfolding update_content
  Simulates-refused e run spec =
      let out = tx-refused healthy (update_content_body id n f actor now) db e refl run in
      rw (out, spec) (refl, refl)

-- An edit is the compare-and-swap on what the database stands for: the same answer, and the same
-- register afterwards, on every branch. The contents and versions are consistent before, and the
-- transaction does not fail.
pub update_refines :
    (id : Text) (n : ℕ) (f : VersionFields) (actor : Text) (now : ℕ) (db : Db)
    → Consistent db
    → Simulates id n f actor now db (update_content healthy id n f actor now db)
update_refines id n f actor now db x =
    elim (Bool-cases (any (λ (c : Content). text_eq c.id id) db.contents)) [
      | inr gone ↦
          Simulates-refused id n f actor now db not_found (missing_body id n f actor now db gone) (
            swap-none id n f actor now db (
              view-none db id
                (λ c m. any-false c (λ (c : Content). text_eq c.id id) db.contents gone m)))
      | inl there ↦
          let (c, m, h) = any-in (λ (c : Content). text_eq c.id id) db.contents there in
          let named : c.id ≡ id = ground arith in
          elim (Bool-cases (c.current_version == n)) [
            | inl equal ↦ Simulates-stored id n f actor now db c x m named (ground arith)
            | inr other ↦
                let (v, k, owner, number, before) = view-there db c x m in
                let was : view db id ≡ some (c.current_version, v.fields) = rw named at before in
                Simulates-refused id n f actor now db version_conflict
                  (conflict_body id n f actor now db c x m named other)
                  (swap-some id n f actor now db c.current_version v.fields was ∙ rw other refl)
          ]
    ]
