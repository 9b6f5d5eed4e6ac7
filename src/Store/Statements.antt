-- ===== src/Store/Statements.antt =====
-- The SQL statements of internal/store as functions on the tables, with the constraints of
-- migrations/00001_init.sql. A statement fails by the first constraint that it breaks.
use qdt_test.Common.{
  ℕ, suc, Text, text_eq, ◌==◌, if◌then◌else◌, Option, none, some, Bool, true, false, ◌&&◌, ◌||◌,
  not, [], ◌∷◌, ◌++◌, Result, ok, err, any, update,
}
use qdt_test.Store.Model.{
  Db, SqlError, unique, primary_key, foreign_key, Content, Version, VersionFields, Schedule, Event,
  Status, pending, claimed,
}

abbrev pub is_pending : Status → Bool
is_pending pending = true
is_pending _ = false

abbrev pub is_claimed : Status → Bool
is_claimed claimed = true
is_claimed _ = false

abbrev pub is_done : Status → Bool
is_done Status.done = true
is_done _ = false

-- `status IN ('pending','claimed')`, the condition of ux_schedule_active_per_content.
abbrev pub is_active : Status → Bool
is_active s = is_pending s || is_claimed s

-- `column = ?` is false at NULL.
abbrev pub opt_text_eq : Option Text → Text → Bool
opt_text_eq none t = false
opt_text_eq (some s) t = text_eq s t

abbrev pub opt_eq : Option ℕ → ℕ → Bool
opt_eq none n = false
opt_eq (some m) n = m == n

abbrev pub has_content : Text → Db → Bool
has_content id db = any (λ c. text_eq c.id id) db.contents

abbrev pub has_version : ℕ → Db → Bool
has_version id db = any (λ v. v.id == id) db.content_versions

-- A nullable foreign key refers to nothing at NULL.
abbrev pub has_version? : Option ℕ → Db → Bool
has_version? none db = true
has_version? (some id) db = has_version id db

unfoldable pub insert_content : Content → Db → Result SqlError Db
insert_content c db =
    if has_content c.id db
    then err primary_key
    else if any (λ d. text_eq d.slug c.slug) db.contents
    then err unique
    else ok (record db { contents = db.contents ++ c ∷ [] })

-- The row that takes the next id of the sequence, and that id.
abbrev pub version_row : ℕ → Text → ℕ → VersionFields → Text → ℕ → Version
version_row id content_id n f actor now = record {
  id = id;
  content_id = content_id;
  version = n;
  created_by = actor;
  created_at = now;
  fields = f;
}

unfoldable pub insert_version_row : Version → Db → Result SqlError Db
insert_version_row v db =
    if any (λ w. text_eq w.content_id v.content_id && w.version == v.version) db.content_versions
    then err unique
    else if has_content v.content_id db
    then ok (record db {
      content_versions = db.content_versions ++ v ∷ [];
      next_version_id = suc db.next_version_id;
    })
    else err foreign_key

unfoldable pub insert_schedule : Schedule → Db → Result SqlError Db
insert_schedule s db =
    if any (λ r. text_eq r.id s.id) db.publish_schedules
    then err primary_key
    else if is_active s.status
        && any (λ r. is_active r.status && text_eq r.content_id s.content_id) db.publish_schedules
    then err unique
    else if has_content s.content_id db && has_version s.version_id db
    then ok (record db { publish_schedules = db.publish_schedules ++ s ∷ [] })
    else err foreign_key

-- Whether an event of that schedule is there: ux_event_per_schedule holds where it is not NULL.
abbrev pub has_event : Option Text → Db → Bool
has_event none db = false
has_event (some s) db = any (λ e. opt_text_eq e.schedule_id s) db.publish_events

unfoldable pub insert_event : Event → Db → Result SqlError Db
insert_event e db =
    if has_event e.schedule_id db
    then err unique
    else if has_content e.content_id db && has_version? e.version_id db
    then ok (record db {
      publish_events = db.publish_events ++ e ∷ [];
      next_event_id = suc db.next_event_id;
    })
    else err foreign_key

abbrev pub point_at : Option ℕ → Option ℕ → ℕ → Content → Content
point_at version_id published_at now c = record c {
  published_version_id = version_id;
  published_at = published_at;
  updated_at = now;
}

-- `UPDATE contents SET published_version_id = ?, published_at = ?, updated_at = ? WHERE id = ?`.
-- The foreign key is checked where a row is written.
unfoldable pub set_published : Text → Option ℕ → Option ℕ → ℕ → Db → Result SqlError Db
set_published id version_id published_at now db =
    if has_version? version_id db || not (has_content id db)
    then ok (record db {
      contents = update (λ c. text_eq c.id id) (point_at version_id published_at now) db.contents;
    })
    else err foreign_key
