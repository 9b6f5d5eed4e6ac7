-- ===== src/Content/Service/Edits.antt =====
-- Edits that succeed, and edits that come with a stale version.
use qdt_test.Common.{ℕ, ◌≡◌, Result, ok, err}
use qdt_test.Store.Model.{Db, Error, VersionFields, ContentWithVersion, version_conflict}
use qdt_test.Store.Tx.{Conn, healthy}
use qdt_test.Store.Contents.{update_content}
use qdt_test.Content.Validate.{normalize_fields}
use qdt_test.Content.Service.{UpdateInput, edit, edit_normal}

edit_normal-update :
    (conn : Conn) (input : UpdateInput) (now : ℕ) (n : Result Error VersionFields) (db after : Db)
    (r : ContentWithVersion)
    → edit_normal conn input now n db ≡ (ok r, after)
    → (f : VersionFields) × (update_content conn input.id input.expected_version f input.actor now
          db
        ≡ (ok r, after))
unfolding edit_normal
edit_normal-update conn input now (ok f) db after r won = (f, won)
edit_normal-update conn input now (err e) db after r won = absurd (cc won)

-- A successful edit is a successful update of what its fields normalise to.
pub edit-update :
    (conn : Conn) (input : UpdateInput) (now : ℕ) (db after : Db) (r : ContentWithVersion)
    → edit conn input now db ≡ (ok r, after)
    → (f : VersionFields) × (update_content conn input.id input.expected_version f input.actor now
          db
        ≡ (ok r, after))
unfolding edit
edit-update conn input now db after r won =
    edit_normal-update conn input now (normalize_fields input.fields) db after r won

-- An edit with a stale version is refused, if its own fields are fine.
pub edit-refused :
    (input : UpdateInput) (f : VersionFields) (now : ℕ) (db : Db)
    → normalize_fields input.fields ≡ ok f
    → update_content healthy input.id input.expected_version f input.actor now db
      ≡ (err version_conflict, db)
    → edit healthy input now db ≡ (err version_conflict, db)
unfolding edit edit_normal
edit-refused input f now db valid h = rw (edit, valid) h
