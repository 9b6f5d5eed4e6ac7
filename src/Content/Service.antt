-- ===== src/Content/Service.antt =====
-- The operations of internal/content/service.go and internal/content/publish.go. The clock's
-- reading and the fresh identifier are arguments.
pub mod Edits
pub mod Keeps
use qdt_test.Common.{
  ℕ, Text, leb, if◌then◌else◌, List, Result, ok, err, ◌>>=◌, ◌>>◌, trim_space, none,
}
use qdt_test.Store.Model.{
  Db, Error, validation, Content, Version, VersionFields, ContentWithVersion, Schedule, manual,
}
use qdt_test.Store.Tx.{Conn}
use qdt_test.Store.Contents
use qdt_test.Store.Contents.{
  create_content, update_content, get_content, get_content_with_current_version, list_contents,
  count_contents,
}
use qdt_test.Store.Publish
use qdt_test.Store.Schedules
use qdt_test.Store.Public.{PublicContent}
use qdt_test.Store.Public
use qdt_test.Content.Validate.{validate_slug, normalize_fields}

pub record CreateInput : Type 0 where
  pub slug : Text
  pub fields : VersionFields
  pub actor : Text

-- The slug is looked at before the fields.
checked_input : CreateInput → Result Error VersionFields
checked_input input = do validate_slug (trim_space input.slug); normalize_fields input.fields

unfoldable pub create : Conn → CreateInput → Text → ℕ → Db → Result Error ContentWithVersion × Db
unfolding checked_input
create conn input id now db = elim (checked_input input) [
  | err e ↦ (err e, db)
  | ok fields ↦ create_content conn id (trim_space input.slug) fields input.actor now db
]

pub record UpdateInput : Type 0 where
  pub id : Text
  pub expected_version : ℕ
  pub fields : VersionFields
  pub actor : Text

edit_normal :
    Conn → UpdateInput → ℕ → Result Error VersionFields → Db → Result Error ContentWithVersion × Db
edit_normal conn input now (err e) db = (err e, db)
edit_normal conn input now (ok fields) db =
    update_content conn input.id input.expected_version fields input.actor now db

-- `Update`; the clock is read once the input has passed.
unfoldable pub edit : Conn → UpdateInput → ℕ → Db → Result Error ContentWithVersion × Db
unfolding edit_normal
edit conn input now db = edit_normal conn input now (normalize_fields input.fields) db

unfoldable pub get : Text → Db → Result Error ContentWithVersion
get id db = get_content_with_current_version id db

unfoldable pub list : ℕ → ℕ → Db → List ContentWithVersion × ℕ
list limit offset db = (list_contents limit offset db, count_contents db)

unfoldable pub list_versions : Text → ℕ → ℕ → Db → Result Error (List Version)
list_versions content_id limit offset db = Contents.list_versions content_id limit offset db

unfoldable pub get_version : Text → ℕ → Db → Result Error Version
get_version content_id version db = Contents.get_version content_id version db

-- The version is named by its number, and its rowid is what the store publishes. It is read before the
-- transaction begins: others may write in between, as `meanwhile` says.
unfoldable pub publish : Conn → (Db → Db) → Text → ℕ → Text → ℕ → Db → Result Error Content × Db
publish conn meanwhile content_id n actor now db = elim (Contents.get_version content_id n db) [
  | err e ↦ (err e, db)
  | ok v ↦
      Publish.publish conn
        (record {
          content_id = content_id;
          version_id = v.id;
          source = manual;
          actor = actor;
          schedule_id = none;
          now = now;
        })
        (meanwhile db)
]

unfoldable pub unpublish : Conn → Text → Text → ℕ → Db → Result Error Content × Db
unpublish conn content_id actor now db = Publish.unpublish conn content_id actor now db

pub record ScheduleInput : Type 0 where
  pub content_id : Text
  pub version : ℕ
  pub run_at_ms : ℕ

schedule_version :
    Conn
    → (Db → Db)
    → ScheduleInput
    → Text
    → ℕ
    → Result Error Version
    → Db
    → Result Error Schedule × Db
schedule_version conn meanwhile input id now (err e) db = (err e, db)
schedule_version conn meanwhile input id now (ok v) db =
    Schedules.create_schedule conn id input.content_id v.id input.run_at_ms now (meanwhile db)

-- A time that has passed is refused before the version is looked up, and that is read before the
-- transaction.
unfoldable pub schedule :
    Conn → (Db → Db) → ScheduleInput → Text → ℕ → Db → Result Error Schedule × Db
unfolding schedule_version
schedule conn meanwhile input id now db =
    if leb input.run_at_ms now
    then (
      err (
          validation "run_at"
            "must be in the future; use the publish endpoint to publish immediately"),
      db,
    )
    else schedule_version conn meanwhile input id now
        (Contents.get_version input.content_id input.version db) db

unfoldable pub list_schedules : Text → Db → Result Error (List Schedule)
list_schedules content_id db = do
  _ ← get_content content_id db
  ok (Schedules.list_schedules content_id db)

unfoldable pub cancel_schedule : Conn → Text → ℕ → Db → Result Error (Unit {0}) × Db
cancel_schedule conn id now db = Schedules.cancel_schedule conn id now db

unfoldable pub get_public_by_slug : Text → Db → Result Error PublicContent
get_public_by_slug slug db = Public.get_public_by_slug slug db

unfoldable pub list_public : ℕ → ℕ → Db → List PublicContent × ℕ
list_public limit offset db = (Public.list_public limit offset db, Public.count_public db)
