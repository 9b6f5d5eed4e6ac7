-- ===== src/Httpapi/Admin.antt =====
-- internal/httpapi/admin.go: the handlers of contents and of their versions. The body as it is
-- decoded, or the error of decoding it, is an argument; the text of a time is a parameter.
pub mod Guarded
pub mod Keeps
use qdt_test.Common.{
  ℕ, zero, suc, ◌+◌, String, Text, codes, text_eq, ltb, ◌==◌, if◌then◌else◌, Option, none, some,
  Bool, true, false, ◌&&◌, ◌||◌, not, List, [], ◌∷◌, ◌++◌, Result, ok, err, ◌>>=◌, length, take,
}
use qdt_test.Store.Model.{Db, Error, Content, Version, VersionFields, ContentWithVersion}
use qdt_test.Store.Tx.{Conn}
use qdt_test.Content.Service.{CreateInput, UpdateInput, create, edit, get, get_version, list}
use qdt_test.Httpapi.Etag.{
  MatchError, no_if_match, bad_if_match, weak_if_match, format_etag, parse_int, parse_if_match,
}
use qdt_test.Httpapi.Reply.{
  Code, Details, ErrorDetail, Reply, sent, failed, validation_error, precondition_required, field,
  header, refused, no_details, write_error, write_internal, write_domain_error,
}
use qdt_test.Httpapi.Dto.{
  ContentDto, VersionDto, published_version_number, to_content_dto, to_version_dto,
}

pub record SeoRequest : Type 0 where
  pub meta_title : Text
  pub meta_description : Text
  pub canonical_url : Text
  pub og_image_url : Text
  pub noindex : Bool

-- `seoRequest.fields`.
abbrev pub request_fields : SeoRequest → Text → Text → VersionFields
request_fields s title body = record {
  title = title;
  body = body;
  meta_title = s.meta_title;
  meta_description = s.meta_description;
  canonical_url = s.canonical_url;
  og_image_url = s.og_image_url;
  noindex = s.noindex;
}

pub record CreateContentRequest : Type 0 where
  pub slug : Text
  pub title : Text
  pub body : Text
  pub seo : SeoRequest

pub record UpdateContentRequest : Type 0 where
  pub title : Text
  pub body : Text
  pub seo : SeoRequest

-- What `decodeJSON` finds wrong with a body.
pub data BodyError : Type 0 where
  too_large : BodyError
  not_json : (message : String) → BodyError
  not_one_object : BodyError

unfoldable pub write_body_error : {A : Type 0} → BodyError → Reply A
unfolding write_error
write_body_error too_large =
    write_error 413 validation_error "Request body is too large." no_details
write_body_error (not_json message) = write_error 400 validation_error message no_details
write_body_error not_one_object =
    write_error 400 validation_error "Request body must contain exactly one JSON object." no_details

-- The header of an actor is cut to 100 bytes.
abbrev pub actor_from : Text → Text
actor_from x_actor = if ltb 100 (length x_actor) then take 100 x_actor else x_actor

abbrev no_if_match_message : String
no_if_match_message =
    "This endpoint requires an If-Match header carrying the current ETag. Use If-Match: * to overwrite unconditionally."

abbrev not_a_version : String
not_a_version = "Version must be a positive integer."

-- What a handler of one content sends: its state, under the tag of its version.
module _ (format_millis : ℕ → Text) where
  unfoldable pub write_content : ContentWithVersion → Result Error (Option ℕ) → Reply ContentDto
  unfolding write_internal
  write_content r (err e) = write_internal
  write_content r (ok n) =
      sent 200 (some (format_etag r.content.current_version)) none
        (to_content_dto format_millis r n)

  write_created : Result Error ContentWithVersion → Db → Reply ContentDto
  write_created (err e) db = write_domain_error none e db
  write_created (ok r) db =
      sent 201 (some (format_etag r.content.current_version))
        (some (codes "/api/v1/contents/" ++ r.content.id)) (to_content_dto format_millis r none)

  unfoldable pub handle_create_content :
      Conn → Result BodyError CreateContentRequest → Text → Text → ℕ → Db → Reply ContentDto × Db
  unfolding write_created write_body_error
  handle_create_content conn (err e) x_actor id now db = (write_body_error e, db)
  handle_create_content conn (ok req) x_actor id now db =
      let (created, after) =
        create conn
          (record {
            slug = req.slug;
            fields = request_fields req.seo req.title req.body;
            actor = actor_from x_actor;
          })
          id now db in
      (write_created created after, after)

  -- The state that an operation returned, or its error.
  unfoldable pub write_state : Text → Result Error ContentWithVersion → Db → Reply ContentDto
  unfolding write_content
  write_state id (err e) db = write_domain_error (some id) e db
  write_state id (ok r) db = write_content r (published_version_number r.content db)

  unfoldable pub handle_get_content : Text → Db → Reply ContentDto
  unfolding write_state
  handle_get_content id db = write_state id (get id db) db

  -- The compare-and-swap, once the expected version is known.
  update_expecting : Conn → Text → UpdateContentRequest → Text → ℕ → ℕ → Db → Reply ContentDto × Db
  unfolding write_state
  update_expecting conn id req x_actor expected now db =
      let (updated, after) =
        edit conn
          (record {
            id = id;
            expected_version = expected;
            fields = request_fields req.seo req.title req.body;
            actor = actor_from x_actor;
          })
          now db in
      (write_state id updated after, after)

  unfoldable write_match_error : MatchError → Reply ContentDto
  unfolding write_error
  write_match_error no_if_match =
      write_error 428 precondition_required no_if_match_message no_details
  write_match_error bad_if_match =
      write_error 400 validation_error "malformed If-Match header" (header "If-Match")
  write_match_error weak_if_match =
      write_error 400 validation_error "If-Match must be a strong validator" (header "If-Match")

  -- The wildcard is the version that a read finds; other requests may write, as `meanwhile` says,
  -- before the swap.
  update_matching :
      Conn
      → (Db → Db)
      → Text
      → UpdateContentRequest
      → Text
      → Result MatchError (ℕ × Bool)
      → ℕ
      → Db
      → Reply ContentDto × Db
  unfolding update_expecting write_match_error
  update_matching conn meanwhile id req x_actor (err e) now db = (write_match_error e, db)
  update_matching conn meanwhile id req x_actor (ok (expected, false)) now db =
      update_expecting conn id req x_actor expected now db
  update_matching conn meanwhile id req x_actor (ok (expected, true)) now db = elim (get id db) [
    | err e ↦ (write_domain_error (some id) e db, db)
    | ok r ↦ update_expecting conn id req x_actor r.content.current_version now (meanwhile db)
  ]

  unfoldable pub handle_update_content :
      Conn
      → (Db → Db)
      → Text
      → Result BodyError UpdateContentRequest
      → Text
      → Text
      → ℕ
      → Db
      → Reply ContentDto × Db
  unfolding update_matching write_body_error
  handle_update_content conn meanwhile id (err e) if_match x_actor now db = (write_body_error e, db)
  handle_update_content conn meanwhile id (ok req) if_match x_actor now db =
      update_matching conn meanwhile id req x_actor (parse_if_match if_match) now db

  unfoldable pub handle_get_version : Text → Text → Db → Reply VersionDto
  unfolding write_error
  handle_get_version id raw db = elim (parse_int raw) [
    | none ↦ write_error 400 validation_error not_a_version (refused "version" raw)
    | some (negative, n) ↦
        if negative || ltb n 1
        then write_error 400 validation_error not_a_version (refused "version" raw)
        else elim (get_version id n db) [
          | err e ↦ write_domain_error (some id) e db
          | ok v ↦ sent 200 none none (to_version_dto format_millis v)
        ]
  ]
