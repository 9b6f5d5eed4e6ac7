-- ===== src/Store/Publish.antt =====
-- internal/store/publish.go: the published pointer and the audit trail.
pub mod InOrder
pub mod Consistent
pub mod Once
pub mod Pointed
pub mod Withdrawn
use qdt_test.Common.{
  ℕ, Text, text_eq, ◌==◌, ltb, if◌then◌else◌, Option, none, some, Bool, ◌&&◌, ◌||◌, not, List,
  Result, ok, err, ◌>>=◌, ◌>>◌, map_err, find, select, sort, take,
}
use qdt_test.Store.Model.{
  Db, Error, not_found, wrapped, Content, Event, Action, Source, manual, is_published, is_some,
}
use qdt_test.Store.Tx.{Conn, tx}
use qdt_test.Store.Statements.{insert_event, set_published, opt_eq}
use qdt_test.Store.Contents.{get_content}

pub record PublishParams : Type 0 where
  pub content_id : Text
  pub version_id : ℕ
  pub source : Source
  pub actor : Text
  pub schedule_id : Option Text
  pub now : ℕ

-- `SELECT content_id FROM content_versions WHERE id = ?`.
unfoldable pub owner_of : ℕ → Db → Option Text
owner_of version_id db = elim (find (λ v. v.id == version_id) db.content_versions) [
  | none ↦ none
  | some v ↦ some v.content_id
]

-- Whether the version is there and belongs to the content; ErrNotFound if not.
unfoldable pub check_owner : ℕ → Text → Db → Result Error (Unit {0})
unfolding owner_of
check_owner version_id content_id db = elim (owner_of version_id db) [
  | none ↦ err not_found
  | some owner ↦ if text_eq owner content_id then ok tt else err not_found
]

-- `insertEventTx`; the row takes the sequence's next id.
unfoldable pub insert_event_tx : Event → Db → Result Error Db
insert_event_tx e db = map_err (wrapped "insert publish event") (insert_event e db)

abbrev publish_event : PublishParams → Db → Event
publish_event p db = record {
  id = db.next_event_id;
  content_id = p.content_id;
  version_id = some p.version_id;
  action = Action.publish;
  source = p.source;
  schedule_id = p.schedule_id;
  actor = p.actor;
  occurred_at = p.now;
}

-- The version is public already: only a schedule's event is recorded.
already_published : PublishParams → Content → Db → Result Error (Content × Db)
unfolding insert_event_tx
already_published p current db =
    if is_some p.schedule_id
    then (do after ← insert_event_tx (publish_event p db) db; ok (current, after))
    else ok (current, db)

move_pointer : PublishParams → Db → Result Error (Content × Db)
unfolding insert_event_tx get_content
move_pointer p db = do
  pointed ←
      map_err (wrapped "set published version")
        (set_published p.content_id (some p.version_id) (some p.now) p.now db)
  after ← insert_event_tx (publish_event p pointed) pointed
  c ← get_content p.content_id after
  ok (c, after)

publish_body : PublishParams → Db → Result Error (Content × Db)
unfolding get_content check_owner already_published move_pointer
publish_body p db = do
  current ← get_content p.content_id db
  check_owner p.version_id p.content_id db
  if opt_eq current.published_version_id p.version_id
      then already_published p current db
      else move_pointer p db

unfoldable pub publish : Conn → PublishParams → Db → Result Error Content × Db
unfolding publish_body
publish conn p = tx conn (publish_body p)

abbrev unpublish_event : Text → Option ℕ → Text → ℕ → Db → Event
unpublish_event content_id version_id actor now db = record {
  id = db.next_event_id;
  content_id = content_id;
  version_id = version_id;
  action = Action.unpublish;
  source = manual;
  schedule_id = none;
  actor = actor;
  occurred_at = now;
}

clear_pointer : Text → Option ℕ → Text → ℕ → Db → Result Error (Content × Db)
unfolding insert_event_tx get_content
clear_pointer content_id version_id actor now db = do
  cleared ← map_err (wrapped "clear published version") (set_published content_id none none now db)
  after ← insert_event_tx (unpublish_event content_id version_id actor now cleared) cleared
  c ← get_content content_id after
  ok (c, after)

unpublish_body : Text → Text → ℕ → Db → Result Error (Content × Db)
unfolding get_content clear_pointer is_published
unpublish_body content_id actor now db = do
  current ← get_content content_id db
  if is_published current
      then clear_pointer content_id current.published_version_id actor now db
      else ok (current, db)

unfoldable pub unpublish : Conn → Text → Text → ℕ → Db → Result Error Content × Db
unfolding unpublish_body
unpublish conn content_id actor now = tx conn (unpublish_body content_id actor now)

-- `ORDER BY occurred_at DESC, id DESC`.
abbrev newest_first : Event → Event → Bool
newest_first d e =
    ltb e.occurred_at d.occurred_at || (e.occurred_at == d.occurred_at && not (ltb d.id e.id))

unfoldable pub list_events : Text → ℕ → Db → List Event
list_events content_id limit db =
    take limit (sort newest_first (select (λ e. text_eq e.content_id content_id) db.publish_events))
