-- ===== src/Content/Service/Keeps.antt =====
-- The operations of the domain layer over the tables of the store.
use qdt_test.Common.{ℕ, Text, Result, ok, err, inl, inr, leb, Bool-cases, Result-cases, trim_space}
use qdt_test.Store.Model.{Db, Error, VersionFields, Version}
use qdt_test.Store.Tx.{Conn}
use qdt_test.Store.Contents
use qdt_test.Store.History.{step, creates, updates, publishes, unpublishes, schedules, cancels}
use qdt_test.Store.History.Honest.{Steady}
use qdt_test.Content.Validate.{normalize_fields}
use qdt_test.Content.Service.{
  CreateInput, UpdateInput, ScheduleInput, checked_input, create, edit, edit_normal, publish,
  unpublish, schedule, schedule_version, cancel_schedule,
}

module _ (P : Db → Type 0) (steady : Steady P) (conn : Conn) (db : Db) (v : P db) where
  pub create-keeps : (input : CreateInput) (id : Text) (now : ℕ) → P (create conn input id now db).1
  unfolding create step
  create-keeps input id now = elim (Result-cases (checked_input input)) [
    | inl (e, refused) ↦ rw (create, refused) v
    | inr (f, passed) ↦
        rw (create, passed)
          (steady conn (creates id (trim_space input.slug) f input.actor now) db tt v)
  ]

  edit_normal-keeps :
      (input : UpdateInput) (now : ℕ) (n : Result Error VersionFields)
      → P (edit_normal conn input now n db).1
  unfolding edit_normal step
  edit_normal-keeps input now (err e) = v
  edit_normal-keeps input now (ok f) =
      steady conn (updates input.id input.expected_version f input.actor now) db tt v

  pub edit-keeps : (input : UpdateInput) (now : ℕ) → P (edit conn input now db).1
  unfolding edit
  edit-keeps input now = edit_normal-keeps input now (normalize_fields input.fields)

  pub publish-keeps :
      (meanwhile : Db → Db) (w : P (meanwhile db)) (content_id : Text) (n : ℕ) (actor : Text)
      (now : ℕ)
      → P (publish conn meanwhile content_id n actor now db).1
  unfolding publish step
  publish-keeps meanwhile w content_id n actor now =
      elim (Result-cases (Contents.get_version content_id n db)) [
        | inl (e, missing) ↦ rw (publish, missing) v
        | inr (x, found) ↦
            rw (publish, found)
              (steady conn (publishes content_id x.id actor now) (meanwhile db) tt w)
      ]

  pub unpublish-keeps :
      (content_id actor : Text) (now : ℕ) → P (unpublish conn content_id actor now db).1
  unfolding unpublish step
  unpublish-keeps content_id actor now = steady conn (unpublishes content_id actor now) db tt v

  schedule_version-keeps :
      (meanwhile : Db → Db) (w : P (meanwhile db)) (input : ScheduleInput) (id : Text) (now : ℕ)
      (r : Result Error Version)
      → P (schedule_version conn meanwhile input id now r db).1
  unfolding schedule_version step
  schedule_version-keeps meanwhile w input id now (err e) = v
  schedule_version-keeps meanwhile w input id now (ok x) =
      steady conn (schedules id input.content_id x.id input.run_at_ms now) (meanwhile db) tt w

  pub schedule-keeps :
      (meanwhile : Db → Db) (w : P (meanwhile db)) (input : ScheduleInput) (id : Text) (now : ℕ)
      → P (schedule conn meanwhile input id now db).1
  unfolding schedule
  schedule-keeps meanwhile w input id now = elim (Bool-cases (leb input.run_at_ms now)) [
    | inl passed ↦ rw passed v
    | inr ahead ↦ rw ahead (
        schedule_version-keeps meanwhile w input id now
          (Contents.get_version input.content_id input.version db))
  ]

  pub cancel_schedule-keeps : (id : Text) (now : ℕ) → P (cancel_schedule conn id now db).1
  unfolding cancel_schedule step
  cancel_schedule-keeps id now = steady conn (cancels id now) db tt v
