-- ===== src/Store/Contents/Register/Replay.antt =====
-- Sequences of edits against the compare-and-swap.
use qdt_test.Common.{ℕ, Text, ◌≡◌, refl, ap, ◌∙◌, List, [], ◌∷◌, Result}
use mathlib.Core.Path.{ap₂}
use qdt_test.Store.Model.{Db, Error, VersionFields}
use qdt_test.Store.Tx.{healthy}
use qdt_test.Store.Contents.{update_content}
use qdt_test.Store.Contents.Consistent.{update_content-Consistent}
use qdt_test.Store.Versioned.{Consistent}
use qdt_test.Store.Contents.Register.{Document, Register, view, swap, answer_of}
use qdt_test.Store.Contents.Register.Refines.{update_refines}

pub record Edit : Type 0 where
  pub id : Text
  pub expected : ℕ
  pub fields : VersionFields
  pub actor : Text
  pub now : ℕ

-- The edits by the store, with their answers.
unfoldable pub run_edits : List Edit → Db → List (Result Error Document) × Db
run_edits [] db = ([], db)
run_edits (e ∷ es) db =
    let (r, after) = update_content healthy e.id e.expected e.fields e.actor e.now db in
    let (rs, last) = run_edits es after in (answer_of r ∷ rs, last)

-- The same edits on the register.
unfoldable pub replay : List Edit → Register → List (Result Error Document) × Register
replay [] reg = ([], reg)
replay (e ∷ es) reg =
    let (r, next) = swap e.id e.expected e.fields reg in
    let (rs, last) = replay es next in (r ∷ rs, last)

-- Any sequence of edits, each in its own transaction, is the same sequence of compare-and-swaps on what
-- the database stands for: every answer is the same, and the register afterwards is. The contents and
-- versions are consistent before, and no transaction fails.
pub edits_refine :
    (es : List Edit) (db : Db)
    → Consistent db
    → ((run_edits es db).0 ≡ (replay es (view db)).0)
      × (view (run_edits es db).1 ≡ (replay es (view db)).1)
unfolding run_edits replay
edits_refine [] db x = (refl, refl)
edits_refine (e ∷ es) db x =
    let (answer, stored) = update_refines e.id e.expected e.fields e.actor e.now db x in
    let after = (update_content healthy e.id e.expected e.fields e.actor e.now db).1 in
    let (answers, last) =
      edits_refine es after
        (update_content-Consistent healthy e.id e.expected e.fields e.actor e.now db x) in
    (
      ap₂ ◌∷◌ answer (answers ∙ ap (λ reg. (replay es reg).0) stored),
      last ∙ ap (λ reg. (replay es reg).1) stored,
    )
