-- ===== src/Store/Contents/Register.antt =====
-- The abstract view of editing: for each content the number and the fields of its current version,
-- and an edit as a compare-and-swap on the number.
pub mod View
mod Body
pub mod Refines
pub mod Replay
use qdt_test.Common.{
  ℕ, ◌+◌, Text, text_eq, ◌==◌, if◌then◌else◌, Option, none, some, Result, ok, err,
}
use qdt_test.Store.Model.{Db, Error, not_found, version_conflict, VersionFields, ContentWithVersion}
use qdt_test.Store.Contents.{get_content_with_current_version}

abbrev pub Document : Type 0
Document = ℕ × VersionFields

abbrev pub Register : Type 0
Register = Text → Option Document

abbrev pub document_of : ContentWithVersion → Document
document_of r = (r.content.current_version, r.version.fields)

abbrev pub document : Result Error ContentWithVersion → Option Document
document (err e) = none
document (ok r) = some (document_of r)

-- What a database stands for.
unfoldable pub view : Db → Register
view db id = document (get_content_with_current_version id db)

abbrev pub set : Text → Document → Register → Register
set id d reg j = if text_eq id j then some d else reg j

abbrev pub swapped :
    Text → ℕ → VersionFields → Register → Option Document → Result Error Document × Register
swapped id n f reg none = (err not_found, reg)
swapped id n f reg (some (m, g)) =
    if m == n then (ok (n + 1, f), set id (n + 1, f) reg) else (err version_conflict, reg)

-- The compare-and-swap that an edit promises.
unfoldable pub swap : Text → ℕ → VersionFields → Register → Result Error Document × Register
swap id n f reg = swapped id n f reg (reg id)

-- An answer of the store, as the abstract operation gives it.
abbrev pub answer_of : Result Error ContentWithVersion → Result Error Document
answer_of (err e) = err e
answer_of (ok r) = ok (document_of r)
