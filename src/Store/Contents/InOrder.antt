-- ===== src/Store/Contents/InOrder.antt =====
-- Creating and editing content keep the queue in order.
use qdt_test.Common.{ℕ, Text}
use qdt_test.Store.Model.{Db, VersionFields}
use qdt_test.Store.Tx.{Conn}
use qdt_test.Store.Tx.Rules.{tx-keeps}
use qdt_test.Store.Statements.{version_row}
use qdt_test.Store.Queued.{InOrder, Queued-append}
use qdt_test.Store.Contents.{
  create_content, create_content_body, update_content, update_content_body,
}
use qdt_test.Store.Contents.Consistent.{create_content_body-rows, update_content_body-rows}
use qdt_test.Store.Contents.Frame.{create_content_body-frame, update_content_body-frame}
use Prim.Native.Nat.{◌+◌}

module _ (conn : Conn) (id : Text) (f : VersionFields) (actor : Text) (now : ℕ) (db : Db) where
  pub create_content-InOrder :
      (slug : Text) → InOrder db → InOrder (create_content conn id slug f actor now db).1
  unfolding create_content
  create_content-InOrder slug q =
      tx-keeps conn (create_content_body id slug f actor now) db InOrder q (λ r after run.
        let rows = create_content_body-rows id slug f actor now db after r run in
        rw (rows.3, create_content_body-frame id slug f actor now db after r run)
          (Queued-append db.content_versions (version_row db.next_version_id id 1 f actor now)
            db.publish_schedules q))

  pub update_content-InOrder :
      (n : ℕ) → InOrder db → InOrder (update_content conn id n f actor now db).1
  unfolding update_content
  update_content-InOrder n q =
      tx-keeps conn (update_content_body id n f actor now) db InOrder q (λ r after run.
        let rows = update_content_body-rows id n f actor now db after r run in
        rw (rows.2, update_content_body-frame id n f actor now db after r run)
          (Queued-append db.content_versions (version_row db.next_version_id id (n + 1) f actor now)
            db.publish_schedules q))
