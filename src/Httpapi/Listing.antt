-- ===== src/Httpapi/Listing.antt =====
-- The handlers of internal/httpapi/admin.go that answer with a list.
pub mod Bounds
use qdt_test.Common.{ℕ, Text, none, some, List, [], ◌∷◌, map, Result, ok, err, ◌>>=◌, length}
use qdt_test.Store.Model.{Db, Error, Version, ContentWithVersion}
use qdt_test.Content.Service.{list, list_versions}
use qdt_test.Httpapi.Reply.{ErrorDetail, Reply, sent, failed, write_internal, write_domain_error}
use qdt_test.Httpapi.Dto.{
  ContentDto, VersionDto, published_version_number, to_content_dto, to_version_dto,
}
use qdt_test.Httpapi.Pages.{parse_pagination}

pub record ListResponse (A : Type 0) : Type 0 where
  pub items : List A
  pub total : ℕ
  pub limit : ℕ
  pub offset : ℕ

module _ (format_millis : ℕ → Text) where
  -- The first content whose published version cannot be read ends the loop.
  content_dtos : List ContentWithVersion → Db → Result Error (List ContentDto)
  content_dtos [] db = ok []
  content_dtos (r ∷ rs) db = do
    n ← published_version_number r.content db
    rest ← content_dtos rs db
    ok (to_content_dto format_millis r n ∷ rest)

  write_page : ℕ → ℕ → ℕ → Result Error (List ContentDto) → Reply (ListResponse ContentDto)
  write_page limit offset total (err e) = write_internal
  write_page limit offset total (ok items) =
      sent 200 none none (record { items = items; total = total; limit = limit; offset = offset })

  list_page : Result ErrorDetail (ℕ × ℕ) → Db → Reply (ListResponse ContentDto)
  unfolding write_page content_dtos
  list_page (err e) db = failed 400 e
  list_page (ok (limit, offset)) db =
      let (rows, total) = list limit offset db in
      write_page limit offset total (content_dtos rows db)

  unfoldable pub handle_list_contents : Text → Text → Db → Reply (ListResponse ContentDto)
  unfolding list_page
  handle_list_contents raw_limit raw_offset db =
      list_page (parse_pagination raw_limit raw_offset) db

  -- The total is the length of the page.
  write_versions : Text → ℕ → ℕ → Result Error (List Version) → Db → Reply (ListResponse VersionDto)
  write_versions id limit offset (err e) db = write_domain_error (some id) e db
  write_versions id limit offset (ok versions) db = sent 200 none none (record {
    items = map (to_version_dto format_millis) versions;
    total = length versions;
    limit = limit;
    offset = offset;
  })

  versions_page : Text → Result ErrorDetail (ℕ × ℕ) → Db → Reply (ListResponse VersionDto)
  unfolding write_versions
  versions_page id (err e) db = failed 400 e
  versions_page id (ok (limit, offset)) db =
      write_versions id limit offset (list_versions id limit offset db) db

  unfoldable pub handle_list_versions : Text → Text → Text → Db → Reply (ListResponse VersionDto)
  unfolding versions_page
  handle_list_versions id raw_limit raw_offset db =
      versions_page id (parse_pagination raw_limit raw_offset) db
