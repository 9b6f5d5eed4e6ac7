-- ===== src/Httpapi/Publishing.antt =====
-- internal/httpapi/publish.go: the handlers that publish, unpublish and schedule. `time.Parse` of
-- the time to run at is a parameter, as is the text of a time. `meanwhile` is what other requests and
-- workers write between the read of a version and the transaction.
pub mod Keeps
use qdt_test.Common.{
  ℕ, Text, codes, ltb, if◌then◌else◌, Option, none, some, List, [], ◌∷◌, ◌++◌, Result, ok, err,
  ◌>>=◌, length,
}
use qdt_test.Store.Model.{Db, Error, Content, Schedule}
use qdt_test.Store.Tx.{Conn}
use qdt_test.Content.Service.{get, publish, unpublish, schedule, list_schedules, cancel_schedule}
use qdt_test.Httpapi.Reply.{
  Reply, sent, validation_error, field, write_error, write_internal, write_domain_error,
}
use qdt_test.Httpapi.Dto.{ContentDto, ScheduleDto, published_version_number, to_schedule_dto}
use qdt_test.Httpapi.Admin.{BodyError, write_body_error, write_content, actor_from}
use qdt_test.Httpapi.Listing.{ListResponse}

pub record ScheduleRequest : Type 0 where
  pub version : ℕ
  pub run_at : Text

module _ (format_millis : ℕ → Text) (parse_time : Text → Option ℕ) where
  -- After a change of the publish state the content is read again, and any failure is internal.
  write_content_state : Content → Db → Reply ContentDto
  write_content_state c db = elim (get c.id db) [
    | err _ ↦ write_internal
    | ok r ↦ write_content format_millis r (published_version_number r.content db)
  ]

  write_changed : Text → Result Error Content → Db → Reply ContentDto
  unfolding write_content_state
  write_changed id (err e) db = write_domain_error (some id) e db
  write_changed id (ok c) db = write_content_state c db

  publish_version : Conn → (Db → Db) → Text → ℕ → Text → ℕ → Db → Reply ContentDto × Db
  unfolding write_changed
  publish_version conn meanwhile id version actor now db =
      let (published, after) = publish conn meanwhile id version actor now db in
      (write_changed id published after, after)

  -- A version below 1 is refused, and 0 stands for all of these.
  unfoldable pub handle_publish :
      Conn → (Db → Db) → Text → Result BodyError ℕ → Text → ℕ → Db → Reply ContentDto × Db
  unfolding publish_version
  handle_publish conn meanwhile id (err e) x_actor now db = (write_body_error e, db)
  handle_publish conn meanwhile id (ok version) x_actor now db =
      if ltb version 1
      then (
        write_error 400 validation_error "version must be a positive integer." (field "version"),
        db,
      )
      else publish_version conn meanwhile id version (actor_from x_actor) now db

  unfoldable pub handle_unpublish : Conn → Text → Text → ℕ → Db → Reply ContentDto × Db
  unfolding write_changed
  handle_unpublish conn id x_actor now db =
      let (unpublished, after) = unpublish conn id (actor_from x_actor) now db in
      (write_changed id unpublished after, after)

  write_schedule : Schedule → Result Error ScheduleDto → Reply ScheduleDto
  write_schedule s (err e) = write_internal
  write_schedule s (ok dto) = sent 201 none (some (codes "/api/v1/schedules/" ++ s.id)) dto

  write_scheduled : Text → Result Error Schedule → Db → Reply ScheduleDto
  unfolding write_schedule
  write_scheduled id (err e) db = write_domain_error (some id) e db
  write_scheduled id (ok s) db = write_schedule s (to_schedule_dto format_millis s db)

  schedule_at : Conn → (Db → Db) → Text → ℕ → Option ℕ → Text → ℕ → Db → Reply ScheduleDto × Db
  unfolding write_scheduled
  schedule_at conn meanwhile id version none fresh now db = (
    write_error 400 validation_error
        "run_at must be an RFC3339 timestamp, for example 2026-01-15T12:00:00Z." (field "run_at"),
    db,
  )
  schedule_at conn meanwhile id version (some run_at) fresh now db =
      let (scheduled, after) =
        schedule conn meanwhile (record { content_id = id; version = version; run_at_ms = run_at })
          fresh now db in
      (write_scheduled id scheduled after, after)

  unfoldable pub handle_create_schedule :
      Conn
      → (Db → Db)
      → Text
      → Result BodyError ScheduleRequest
      → Text
      → ℕ
      → Db
      → Reply ScheduleDto × Db
  unfolding schedule_at
  handle_create_schedule conn meanwhile id (err e) fresh now db = (write_body_error e, db)
  handle_create_schedule conn meanwhile id (ok req) fresh now db =
      if ltb req.version 1
      then (
        write_error 400 validation_error "version must be a positive integer." (field "version"),
        db,
      )
      else schedule_at conn meanwhile id req.version (parse_time req.run_at) fresh now db

  schedule_dtos : List Schedule → Db → Result Error (List ScheduleDto)
  schedule_dtos [] db = ok []
  schedule_dtos (s ∷ ss) db = do
    dto ← to_schedule_dto format_millis s db
    rest ← schedule_dtos ss db
    ok (dto ∷ rest)

  write_schedules : Result Error (List ScheduleDto) → Reply (ListResponse ScheduleDto)
  write_schedules (err e) = write_internal
  write_schedules (ok items) =
      sent 200 none none
        (record { items = items; total = length items; limit = length items; offset = 0 })

  unfoldable pub handle_list_schedules : Text → Db → Reply (ListResponse ScheduleDto)
  unfolding write_schedules schedule_dtos
  handle_list_schedules id db = elim (list_schedules id db) [
    | err e ↦ write_domain_error (some id) e db
    | ok schedules ↦ write_schedules (schedule_dtos schedules db)
  ]

  write_cancelled : Result Error (Unit {0}) → Db → Reply (Unit {0})
  write_cancelled (err e) db = write_domain_error none e db
  write_cancelled (ok _) db = sent 204 none none tt

  -- The route of a schedule has no content id.
  unfoldable pub handle_cancel_schedule : Conn → Text → ℕ → Db → Reply (Unit {0}) × Db
  unfolding write_cancelled
  handle_cancel_schedule conn schedule_id now db =
      let (done, after) = cancel_schedule conn schedule_id now db in
      (write_cancelled done after, after)
