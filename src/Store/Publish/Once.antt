-- ===== src/Store/Publish/Once.antt =====
-- Publishing and unpublishing by hand leave the queue alone, and their events name no schedule.
use qdt_test.Common.{
  ℕ, Text, ◌≡◌, refl, ◌⊎◌, inl, inr, Option, none, some, find, text_eq, ◌++◌, ◌∷◌, [], arith, ok,
}
use qdt_test.Store.Model.{Db, Content, Event}
use qdt_test.Store.Tx.{Conn}
use qdt_test.Store.Tx.Rules.{tx-keeps}
use qdt_test.Store.Statements.{insert_event, set_published}
use qdt_test.Store.Exactly.{Once, ExactlyOnce-event}
use qdt_test.Store.Publish.{
  PublishParams, publish_body, publish_event, publish, unpublish_body, unpublish_event, unpublish,
}

publish_body-frame :
    (p : PublishParams) (db after : Db) (c : Content)
    → p.schedule_id ≡ none
    → publish_body p db ≡ ok (c, after)
    → (after.publish_schedules ≡ db.publish_schedules)
      × ((after.publish_events ≡ db.publish_events)
          ⊎ (after.publish_events ≡ db.publish_events ++ publish_event p db ∷ []))
unfolding publish_body insert_event set_published
publish_body-frame p db after c by_hand run = ground arith

-- The pointer that an unpublish clears.
abbrev pointer_of : Text → Db → Option ℕ
pointer_of id db = elim (find (λ c. text_eq c.id id) db.contents) [
  | none ↦ none
  | some c ↦ c.published_version_id
]

unpublish_body-frame :
    (id actor : Text) (now : ℕ) (db after : Db) (c : Content)
    → unpublish_body id actor now db ≡ ok (c, after)
    → (after.publish_schedules ≡ db.publish_schedules)
      × ((after.publish_events ≡ db.publish_events)
          ⊎ (after.publish_events
              ≡ db.publish_events ++ unpublish_event id (pointer_of id db) actor now db ∷ []))
unfolding unpublish_body insert_event set_published
unpublish_body-frame id actor now db after c run = ground arith

Once-frame :
    (db after : Db) (e : Event)
    → e.schedule_id ≡ none
    → (after.publish_schedules ≡ db.publish_schedules)
      × ((after.publish_events ≡ db.publish_events)
          ⊎ (after.publish_events ≡ db.publish_events ++ e ∷ []))
    → Once db
    → Once after
Once-frame db after e anon (rows, inl same) x = rw (rows, same) x
Once-frame db after e anon (rows, inr more) x =
    rw (rows, more) (ExactlyOnce-event db.publish_schedules db.publish_events e anon x)

pub publish-Once :
    (conn : Conn) (p : PublishParams) (db : Db)
    → p.schedule_id ≡ none
    → Once db
    → Once (publish conn p db).1
unfolding publish
publish-Once conn p db by_hand x = tx-keeps conn (publish_body p) db Once x (λ c after run.
    Once-frame db after (publish_event p db) by_hand (publish_body-frame p db after c by_hand run)
      x)

pub unpublish-Once :
    (conn : Conn) (id actor : Text) (now : ℕ) (db : Db)
    → Once db
    → Once (unpublish conn id actor now db).1
unfolding unpublish
unpublish-Once conn id actor now db x =
    tx-keeps conn (unpublish_body id actor now) db Once x (λ c after run.
      Once-frame db after (unpublish_event id (pointer_of id db) actor now db) refl
        (unpublish_body-frame id actor now db after c run) x)
