-- ===== src/Httpapi/Public.antt =====
-- internal/httpapi/public.go: the public handlers and their conditional replies. The text of a time
-- is a parameter. `if_none_match` is the request's header.
pub mod Hidden
pub mod Stale
pub mod Bounds
use qdt_test.Common.{ℕ, Text, if◌then◌else◌, none, some, [], ◌∷◌, ◌++◌, map, Result, ok, err}
use qdt_test.Store.Model.{Db, Error}
use qdt_test.Store.Model
use qdt_test.Store.Public.{PublicContent, latest_published_at}
use qdt_test.Content.Service.{get_public_by_slug, list_public}
use qdt_test.Httpapi.Etag.{format_int, if_none_match_matches}
use qdt_test.Httpapi.Reply.{
  Reply, ErrorDetail, sent, not_modified, failed, not_found, no_details, write_error,
  write_internal,
}
use qdt_test.Httpapi.Dto.{PublicContentDto, to_public_dto}
use qdt_test.Httpapi.Pages.{parse_pagination}
use qdt_test.Httpapi.Listing.{ListResponse}

unfoldable pub content_etag : ℕ → Text
content_etag last_modified = b'"' ∷ format_int last_modified ++ b'"' ∷ []

-- The public sees 404 and 500 only.
write_public_error : {A : Type 0} → Error → Reply A
unfolding write_error write_internal
write_public_error Model.not_found = write_error 404 not_found "Not found." no_details
write_public_error e = write_internal

-- `serveConditional`, and the reply that follows where it sends nothing.
unfoldable pub serve_conditional : {A : Type 0} → Text → ℕ → A → Reply A
unfolding content_etag
serve_conditional if_none_match last_modified body =
    if if_none_match_matches if_none_match (content_etag last_modified)
    then not_modified (content_etag last_modified)
    else sent 200 (some (content_etag last_modified)) none body

module _ (format_millis : ℕ → Text) where
  write_public : Text → Result Error PublicContent → Reply PublicContentDto
  unfolding write_public_error serve_conditional
  write_public if_none_match (err e) = write_public_error e
  write_public if_none_match (ok p) =
      serve_conditional if_none_match p.updated_at (to_public_dto format_millis p)

  unfoldable pub handle_public_get : Text → Text → Db → Reply PublicContentDto
  unfolding write_public
  handle_public_get if_none_match slug db = write_public if_none_match (get_public_by_slug slug db)

  public_page : Text → Result ErrorDetail (ℕ × ℕ) → Db → Reply (ListResponse PublicContentDto)
  unfolding serve_conditional
  public_page if_none_match (err e) db = failed 400 e
  public_page if_none_match (ok (limit, offset)) db =
      let (items, total) = list_public limit offset db in
      serve_conditional if_none_match (latest_published_at db) (record {
        items = map (to_public_dto format_millis) items;
        total = total;
        limit = limit;
        offset = offset;
      })

  unfoldable pub handle_public_list :
      Text → Text → Text → Db → Reply (ListResponse PublicContentDto)
  unfolding public_page
  handle_public_list if_none_match raw_limit raw_offset db =
      public_page if_none_match (parse_pagination raw_limit raw_offset) db
