-- ===== src/Httpapi/Admin/Guarded.antt =====
-- Optimistic locking as a client sees it: from the tag of a read to the reply of an edit.
use qdt_test.Common.{
  ℕ, Text, ◌≡◌, ◌≢◌, ◌<◌, ◌≤◌, ◌∙◌, refl, sym, ap, Option, none, some, false, Result, ok, err,
  arith,
}
use mathlib.Core.Path.{ap₂}
use qdt_test.Store.Model.{Db, Error, VersionFields, ContentWithVersion, version_conflict}
use qdt_test.Store.Tx.{Conn, healthy}
use qdt_test.Store.Contents.{update_content}
use qdt_test.Store.Contents.Token.{one_writer_wins}
use qdt_test.Content.Validate.{normalize_fields}
use qdt_test.Content.Service.{UpdateInput, edit, get}
use qdt_test.Content.Service.Edits.{edit-update, edit-refused}
use qdt_test.Httpapi.Etag.{parse_if_match, format_etag, int64_bound}
use qdt_test.Httpapi.Etag.RoundTrip.{parse_if_match-format_etag}
use qdt_test.Httpapi.Reply.{
  Code, rebase, rebase_on, conflict_details, sent, failed, write_domain_error, write_internal,
  write_error,
}
use qdt_test.Httpapi.Dto.{ContentDto, published_version_number, to_content_dto}
use qdt_test.Httpapi.Admin.{
  UpdateContentRequest, request_fields, actor_from, write_content, write_state, update_expecting,
  update_matching, handle_get_content, handle_update_content,
}

module _ (format_millis : ℕ → Text) where
  write_domain_error-ne-sent :
      (id : Option Text) (e : Error) (db : Db) (status : ℕ) (etag location : Option Text)
      (dto : ContentDto)
      → write_domain_error id e db ≢ sent status etag location dto
  unfolding write_domain_error write_error write_internal
  write_domain_error-ne-sent id e db status etag location dto h = ground arith

  write_state-ok :
      (id : Text) (r : Result Error ContentWithVersion) (db : Db) (status : ℕ)
      (etag location : Option Text) (dto : ContentDto)
      → write_state format_millis id r db ≡ sent status etag location dto
      → (c : ContentWithVersion) × (r ≡ ok c)
  unfolding write_state
  write_state-ok id (ok c) db status etag location dto h = (c, refl)
  write_state-ok id (err e) db status etag location dto h =
      absurd (write_domain_error-ne-sent (some id) e db status etag location dto h)

  update_expecting-won :
      (conn : Conn) (id : Text) (req : UpdateContentRequest) (x_actor : Text) (n now : ℕ)
      (db after : Db) (status : ℕ) (etag location : Option Text) (dto : ContentDto)
      → update_expecting format_millis conn id req x_actor n now db
        ≡ (sent status etag location dto, after)
      → (f : VersionFields) × (r : ContentWithVersion) × (update_content conn id n f
            (actor_from x_actor)
            now
            db
          ≡ (ok r, after))
  unfolding update_expecting
  update_expecting-won conn id req x_actor n now db after status etag location dto h =
      let input : UpdateInput = record {
        id = id;
        expected_version = n;
        fields = request_fields req.seo req.title req.body;
        actor = actor_from x_actor;
      } in
      let state : (edit conn input now db).1 ≡ after = ap (λ p. p.1) h in
      let (c, won) =
        write_state-ok id (edit conn input now db).0 (edit conn input now db).1 status etag location
          dto (ap (λ p. p.0) h) in
      let (f, e) = edit-update conn input now db after c (ap₂ (λ a b. (a, b)) won state) in
      (f, c, e)

  update_expecting-lost :
      (id : Text) (req : UpdateContentRequest) (x_actor : Text) (n now : ℕ) (db : Db)
      (f : VersionFields)
      → normalize_fields (request_fields req.seo req.title req.body) ≡ ok f
      → update_content healthy id n f (actor_from x_actor) now db ≡ (err version_conflict, db)
      → update_expecting format_millis healthy id req x_actor n now db
        ≡ (write_domain_error (some id) version_conflict db, db)
  unfolding update_expecting write_state
  update_expecting-lost id req x_actor n now db f valid h =
      let lost =
        edit-refused
          (record {
            id = id;
            expected_version = n;
            fields = request_fields req.seo req.title req.body;
            actor = actor_from x_actor;
          })
          f now db valid h in
      ap (λ p. (write_state format_millis id p.0 p.1, p.1)) lost

  handle_update_content-tagged :
      (conn : Conn) (meanwhile : Db → Db) (id : Text) (req : UpdateContentRequest)
      (if_match x_actor : Text) (n now : ℕ) (db : Db)
      → parse_if_match if_match ≡ ok (n, false)
      → handle_update_content format_millis conn meanwhile id (ok req) if_match x_actor now db
        ≡ update_expecting format_millis conn id req x_actor n now db
  unfolding handle_update_content update_matching
  handle_update_content-tagged conn meanwhile id req if_match x_actor n now db tag =
      ap (λ t. update_matching format_millis conn meanwhile id req x_actor t now db) tag

  write_content-tag :
      (r : ContentWithVersion) (n : Result Error (Option ℕ)) (tag : Text) (dto : ContentDto)
      → write_content format_millis r n ≡ sent 200 (some tag) none dto
      → tag ≡ format_etag dto.version
  unfolding write_content write_internal write_error to_content_dto
  write_content-tag r (err e) tag dto h = absurd (cc h)
  write_content-tag r (ok n) tag dto h =
      let same : to_content_dto format_millis r n ≡ dto = cc h in
      let tagged : format_etag r.content.current_version ≡ tag = cc h in
      sym tagged ∙ ap (λ d. format_etag d.version) same

  write_state-tag :
      (id : Text) (r : Result Error ContentWithVersion) (db : Db) (tag : Text) (dto : ContentDto)
      → write_state format_millis id r db ≡ sent 200 (some tag) none dto
      → tag ≡ format_etag dto.version
  unfolding write_state
  write_state-tag id (err e) db tag dto h =
      absurd (write_domain_error-ne-sent (some id) e db 200 (some tag) none dto h)
  write_state-tag id (ok r) db tag dto h =
      write_content-tag r (published_version_number r.content db) tag dto h

  -- The reply of a read carries the tag of the version in its body.
  handle_get_content-tag :
      (id : Text) (db : Db) (tag : Text) (dto : ContentDto)
      → handle_get_content format_millis id db ≡ sent 200 (some tag) none dto
      → tag ≡ format_etag dto.version
  unfolding handle_get_content
  handle_get_content-tag id db tag dto h = write_state-tag id (get id db) db tag dto h

  -- The tag that a read sends guards the edits that follow it: of two requests that send it back in
  -- If-Match, once the first has stored its edit and answered it, the second stores nothing and is
  -- answered by 412 with the version and the tag to rebase on, as far as the content can be read, if
  -- its own fields are valid and its transaction goes through. The version read is between 1
  -- and the largest int64.
  pub lost_update_prevented :
      (conn : Conn) (m m' : Db → Db) (id : Text) (req req' : UpdateContentRequest)
      (tag x_actor x_actor' : Text) (now later : ℕ) (seen db after : Db) (read dto : ContentDto)
      (status : ℕ) (etag location : Option Text) (f : VersionFields)
      → handle_get_content format_millis id seen ≡ sent 200 (some tag) none read
      → 1 ≤ read.version
      → read.version < int64_bound
      → handle_update_content format_millis conn m id (ok req) tag x_actor now db
        ≡ (sent status etag location dto, after)
      → normalize_fields (request_fields req'.seo req'.title req'.body) ≡ ok f
      → handle_update_content format_millis healthy m' id (ok req') tag x_actor' later after ≡ (
        failed 412 (record {
          code = Code.version_conflict;
          message = "The content was modified by someone else. Re-read it and retry.";
          details = rebase (rebase_on id after);
        }),
        after,
      )
  unfolding write_domain_error write_error conflict_details
  lost_update_prevented conn m m' id req req' tag x_actor x_actor' now later seen db after read dto
        status etag location f get_ok low high first valid =
      let of_version = handle_get_content-tag id seen tag read get_ok in
      let parsed : parse_if_match tag ≡ ok (read.version, false) =
        ap parse_if_match of_version ∙ parse_if_match-format_etag read.version low high in
      let (g, r, won) =
        update_expecting-won conn id req x_actor read.version now db after status etag location dto
          (sym (handle_update_content-tagged conn m id req tag x_actor read.version now db parsed)
            ∙ first) in
      handle_update_content-tagged healthy m' id req' tag x_actor' read.version later after parsed
      ∙ update_expecting-lost id req' x_actor' read.version later after f valid (
          one_writer_wins conn id read.version g f (actor_from x_actor) (actor_from x_actor') now
            later db after r won)
