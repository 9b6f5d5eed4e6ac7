-- ===== src/Httpapi/Public/Bounds.antt =====
-- How much a list of internal/httpapi holds.
use qdt_test.Common.{
  ℕ, Text, ◌≡◌, refl, ◌≤◌, Result, ok, err, length, length-take, inl, inr, Bool-cases,
}
use qdt_test.Store.Model.{Db}
use qdt_test.Store.Public.{latest_published_at}
use qdt_test.Store.Public
use qdt_test.Content.Service.{list_public}
use qdt_test.Httpapi.Etag.{if_none_match_matches}
use qdt_test.Httpapi.Reply.{ErrorDetail}
use qdt_test.Httpapi.Dto.{to_public_dto}
use qdt_test.Httpapi.Pages.{parse_pagination, max_limit}
use qdt_test.Httpapi.Pages.Bounds.{parse_pagination-bounds}
use qdt_test.Httpapi.Listing.{handle_list_contents, handle_list_versions}
use qdt_test.Httpapi.Listing.Bounds.{
  IsBounded, length-map, handle_list_contents-IsBounded, handle_list_versions-IsBounded,
}
use qdt_test.Httpapi.Public.{content_etag, serve_conditional, public_page, handle_public_list}

module _ (format_millis : ℕ → Text) (db : Db) where
  public_page-IsBounded :
      (if_none_match : Text) (q : Result ErrorDetail (ℕ × ℕ))
      → ((limit offset : ℕ) → q ≡ ok (limit, offset) → (1 ≤ limit) × (limit ≤ max_limit))
      → IsBounded (public_page format_millis if_none_match q db)
  unfolding public_page serve_conditional list_public Public.list_public
  public_page-IsBounded if_none_match (err e) h = tt
  public_page-IsBounded if_none_match (ok (limit, offset)) h =
      let (low, high) = h limit offset refl in
      let cut : length (list_public limit offset db).0 ≤ limit = length-take limit _ in
      elim (Bool-cases
        (if_none_match_matches if_none_match (content_etag (latest_published_at db)))) [
          | inl same ↦ rw same tt
          | inr fresh ↦ rw fresh (
            low,
            high,
            rw (length-map (to_public_dto format_millis) (list_public limit offset db).0) cut,
          )
        ]

  -- Whatever the query of a page says, the three lists that are given by pages, the contents, the
  -- versions of a content and the public documents, are refused or not modified, or state a limit of 1
  -- to 100 and hold no more items than it.
  pub pages-IsBounded :
      (id if_none_match raw_limit raw_offset : Text)
      → IsBounded (handle_list_contents format_millis raw_limit raw_offset db)
        × IsBounded (handle_list_versions format_millis id raw_limit raw_offset db)
        × IsBounded (handle_public_list format_millis if_none_match raw_limit raw_offset db)
  unfolding handle_public_list
  pages-IsBounded id if_none_match raw_limit raw_offset = (
    handle_list_contents-IsBounded format_millis db raw_limit raw_offset,
    handle_list_versions-IsBounded format_millis db id raw_limit raw_offset,
    public_page-IsBounded if_none_match (parse_pagination raw_limit raw_offset)
        (parse_pagination-bounds raw_limit raw_offset),
  )
