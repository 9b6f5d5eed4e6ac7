-- ===== src/Httpapi/Publishing/Keeps.antt =====
-- The handlers that publish and schedule, over the tables of the store.
use qdt_test.Common.{ℕ, Text, ltb, Option, none, some, Result, ok, err, inl, inr, Bool-cases}
use qdt_test.Store.Model.{Db}
use qdt_test.Store.Tx.{Conn}
use qdt_test.Store.History.Honest.{Steady}
use qdt_test.Content.Service.Keeps.{
  publish-keeps, unpublish-keeps, schedule-keeps, cancel_schedule-keeps,
}
use qdt_test.Httpapi.Admin.{BodyError}
use qdt_test.Httpapi.Publishing.{
  ScheduleRequest, publish_version, schedule_at, handle_publish, handle_unpublish,
  handle_create_schedule, handle_cancel_schedule,
}

module _ (P : Db → Type 0) (steady : Steady P) (format_millis : ℕ → Text)
    (parse_time : Text → Option ℕ) (conn : Conn) (now : ℕ) (db : Db) (v : P db)
    (meanwhile : Db → Db) (w : P (meanwhile db)) where
  pub handle_publish-keeps :
      (id : Text) (body : Result BodyError ℕ) (x_actor : Text)
      → P (handle_publish format_millis parse_time conn meanwhile id body x_actor now db).1
  unfolding handle_publish publish_version
  handle_publish-keeps id (err e) x_actor = v
  handle_publish-keeps id (ok version) x_actor = elim (Bool-cases (ltb version 1)) [
    | inl below ↦ rw below v
    | inr positive ↦ rw positive (publish-keeps P steady conn db v meanwhile w id version _ now)
  ]

  pub handle_unpublish-keeps :
      (id x_actor : Text) → P (handle_unpublish format_millis parse_time conn id x_actor now db).1
  unfolding handle_unpublish
  handle_unpublish-keeps id x_actor = unpublish-keeps P steady conn db v id _ now

  schedule_at-keeps :
      (id : Text) (version : ℕ) (run_at : Option ℕ) (fresh : Text)
      → P (schedule_at format_millis parse_time conn meanwhile id version run_at fresh now db).1
  unfolding schedule_at
  schedule_at-keeps id version none fresh = v
  schedule_at-keeps id version (some run_at) fresh =
      schedule-keeps P steady conn db v meanwhile w _ fresh now

  pub handle_create_schedule-keeps :
      (id : Text) (body : Result BodyError ScheduleRequest) (fresh : Text)
      → P (handle_create_schedule format_millis parse_time conn meanwhile id body fresh now db).1
  unfolding handle_create_schedule
  handle_create_schedule-keeps id (err e) fresh = v
  handle_create_schedule-keeps id (ok req) fresh = elim (Bool-cases (ltb req.version 1)) [
    | inl below ↦ rw below v
    | inr positive ↦ rw positive (schedule_at-keeps id req.version (parse_time req.run_at) fresh)
  ]

  pub handle_cancel_schedule-keeps :
      (schedule_id : Text)
      → P (handle_cancel_schedule format_millis parse_time conn schedule_id now db).1
  unfolding handle_cancel_schedule
  handle_cancel_schedule-keeps schedule_id =
      cancel_schedule-keeps P steady conn db v schedule_id now
