-- ===== src/Store/Publish/InOrder.antt =====
-- Publishing and unpublishing leave the queue and the versions as they are.
use qdt_test.Common.{ℕ, Text, ◌≡◌, arith}
use qdt_test.Store.Model.{Db}
use qdt_test.Store.Tx.{Conn, tx}
use qdt_test.Store.Statements.{insert_event, set_published}
use qdt_test.Store.Queued.{InOrder}
use qdt_test.Store.Publish.{PublishParams, publish, unpublish}

abbrev pub SameQueue : Db → Db → Type 0
SameQueue db after =
    (after.publish_schedules ≡ db.publish_schedules)
    × (after.content_versions ≡ db.content_versions)

module _ (conn : Conn) (db : Db) where
  pub publish-SameQueue : (p : PublishParams) → SameQueue db (publish conn p db).1
  unfolding publish tx insert_event set_published
  publish-SameQueue p = ground arith

  pub unpublish-SameQueue :
      (id actor : Text) (now : ℕ) → SameQueue db (unpublish conn id actor now db).1
  unfolding unpublish tx insert_event set_published
  unpublish-SameQueue id actor now = ground arith

  pub publish-InOrder : (p : PublishParams) → InOrder db → InOrder (publish conn p db).1
  publish-InOrder p q = let (rows, versions) = publish-SameQueue p in rw (rows, versions) q

  pub unpublish-InOrder :
      (id actor : Text) (now : ℕ) → InOrder db → InOrder (unpublish conn id actor now db).1
  unpublish-InOrder id actor now q =
      let (rows, versions) = unpublish-SameQueue id actor now in rw (rows, versions) q
