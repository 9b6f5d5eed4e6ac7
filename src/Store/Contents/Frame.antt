-- ===== src/Store/Contents/Frame.antt =====
-- Creating and editing content touches neither the queue nor the audit trail.
use qdt_test.Common.{ℕ, Text, ◌≡◌, arith, ok}
use qdt_test.Store.Model.{Db, VersionFields, ContentWithVersion}
use qdt_test.Store.Tx.{Conn, tx}
use qdt_test.Store.Statements.{insert_content, insert_version_row}
use qdt_test.Store.Contents.{
  create_content, create_content_body, update_content, update_content_body,
}

module _ (conn : Conn) (id : Text) (f : VersionFields) (actor : Text) (now : ℕ) (db : Db) where
  pub create_content-frame :
      (slug : Text)
      → let after = (create_content conn id slug f actor now db).1 in
        (after.publish_schedules ≡ db.publish_schedules)
        × (after.publish_events ≡ db.publish_events)
  unfolding create_content tx insert_content insert_version_row
  create_content-frame slug = ground arith

  pub update_content-frame :
      (expected : ℕ)
      → let after = (update_content conn id expected f actor now db).1 in
        (after.publish_schedules ≡ db.publish_schedules)
        × (after.publish_events ≡ db.publish_events)
  unfolding update_content tx insert_version_row
  update_content-frame expected = ground arith

pub create_content_body-frame :
    (id slug : Text) (f : VersionFields) (actor : Text) (now : ℕ) (db after : Db)
    (r : ContentWithVersion)
    → create_content_body id slug f actor now db ≡ ok (r, after)
    → after.publish_schedules ≡ db.publish_schedules
unfolding create_content_body insert_content insert_version_row
create_content_body-frame id slug f actor now db after r run = ground arith

pub update_content_body-frame :
    (id : Text) (n : ℕ) (f : VersionFields) (actor : Text) (now : ℕ) (db after : Db)
    (r : ContentWithVersion)
    → update_content_body id n f actor now db ≡ ok (r, after)
    → after.publish_schedules ≡ db.publish_schedules
unfolding update_content_body insert_version_row
update_content_body-frame id n f actor now db after r run = ground arith
