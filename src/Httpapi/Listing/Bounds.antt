-- ===== src/Httpapi/Listing/Bounds.antt =====
-- How much the lists of the admin routes hold.
use qdt_test.Common.{
  ℕ, Text, Option, some, ◌≡◌, refl, ◌≤◌, List, [], ◌∷◌, Result, ok, err, length, length-take, take,
  map, inl, inr, Result-cases,
}
use qdt_test.Store.Model.{
  Db, Error, Version, ContentWithVersion, not_found, version_conflict, slug_taken, schedule_exists,
  not_cancellable, lease_lost, wrapped, begin_failed, commit_failed, validation,
}
use qdt_test.Store.Contents
use qdt_test.Store.Contents.{get_content, list_contents}
use qdt_test.Content.Service.{list, list_versions}
use qdt_test.Httpapi.Reply.{
  ErrorDetail, Reply, sent, not_modified, failed, write_domain_error, write_internal, write_error,
}
use qdt_test.Httpapi.Dto.{
  ContentDto, published_version_number, VersionDto, to_version_dto, to_content_dto,
}
use qdt_test.Httpapi.Pages.{parse_pagination, max_limit}
use qdt_test.Httpapi.Pages.Bounds.{parse_pagination-bounds}
use qdt_test.Httpapi.Listing.{
  ListResponse, content_dtos, write_page, list_page, handle_list_contents, write_versions,
  versions_page, handle_list_versions,
}

-- A page states a limit of 1 to 100 items and holds no more than that.
abbrev pub IsBounded : {A : Type 0} → Reply (ListResponse A) → Type 0
IsBounded (sent status etag location page) =
    (1 ≤ page.limit) × (page.limit ≤ max_limit) × (length page.items ≤ page.limit)
IsBounded (not_modified etag) = Unit {0}
IsBounded (failed status detail) = Unit {0}

pub length-map : {A B : Type 0} (f : A → B) (xs : List A) → length (map f xs) ≡ length xs
length-map f [] = refl
length-map f (x ∷ xs) = rw (length-map f xs) refl

short_page :
    {A : Type 0} (n : ℕ) (xs items : List A)
    → ◌≡◌ {A = Result Error (List A)} (ok (take n xs)) (ok items)
    → length items ≤ n
short_page n xs items h = let e : items ≡ take n xs = cc h in rw e (length-take n xs)

module _ (format_millis : ℕ → Text) (db : Db) where
  length-content_dtos :
      (rows : List ContentWithVersion) (items : List ContentDto)
      → content_dtos format_millis rows db ≡ ok items
      → length items ≡ length rows
  unfolding content_dtos
  length-content_dtos [] items h = let e : items ≡ [] = cc h in rw e refl
  length-content_dtos (r ∷ rows) items h =
      elim (Result-cases (published_version_number r.content db)) [
        | inl (e, missing) ↦ absurd (cc (rw missing at h))
        | inr (n, found) ↦ elim (Result-cases (content_dtos format_millis rows db)) [
          | inl (e, refused) ↦ absurd (cc (rw (found, refused) at h))
          | inr (rest, passed) ↦
              let made : items ≡ to_content_dto format_millis r n ∷ rest =
                cc (rw (found, passed) at h) in
              rw (made, length-content_dtos rows rest passed) refl
        ]
      ]

  write_page-IsBounded :
      (limit offset total : ℕ) (r : Result Error (List ContentDto))
      → 1 ≤ limit
      → limit ≤ max_limit
      → ((items : List ContentDto) → r ≡ ok items → length items ≤ limit)
      → IsBounded (write_page format_millis limit offset total r)
  unfolding write_page write_internal write_error
  write_page-IsBounded limit offset total (err e) low high short = tt
  write_page-IsBounded limit offset total (ok items) low high short = (low, high, short items refl)

  list_page-IsBounded :
      (q : Result ErrorDetail (ℕ × ℕ))
      → ((limit offset : ℕ) → q ≡ ok (limit, offset) → (1 ≤ limit) × (limit ≤ max_limit))
      → IsBounded (list_page format_millis q db)
  unfolding list_page list list_contents
  list_page-IsBounded (err e) h = tt
  list_page-IsBounded (ok (limit, offset)) h =
      let (low, high) = h limit offset refl in
      write_page-IsBounded limit offset (list limit offset db).1
        (content_dtos format_millis (list limit offset db).0 db) low high
        (λ items made.
          let cut : length (list limit offset db).0 ≤ limit = length-take limit _ in
          let same = length-content_dtos (list limit offset db).0 items made in rw same cut)

  domain_error-IsBounded :
      (id : Option Text) (e : Error) → IsBounded {A = VersionDto} (write_domain_error id e db)
  unfolding write_domain_error write_internal write_error
  domain_error-IsBounded id not_found = tt
  domain_error-IsBounded id version_conflict = tt
  domain_error-IsBounded id slug_taken = tt
  domain_error-IsBounded id schedule_exists = tt
  domain_error-IsBounded id not_cancellable = tt
  domain_error-IsBounded id lease_lost = tt
  domain_error-IsBounded id (wrapped context x) = tt
  domain_error-IsBounded id begin_failed = tt
  domain_error-IsBounded id commit_failed = tt
  domain_error-IsBounded id (validation field message) = tt

  write_versions-IsBounded :
      (id : Text) (limit offset : ℕ) (r : Result Error (List Version))
      → 1 ≤ limit
      → limit ≤ max_limit
      → ((items : List Version) → r ≡ ok items → length items ≤ limit)
      → IsBounded (write_versions format_millis id limit offset r db)
  unfolding write_versions
  write_versions-IsBounded id limit offset (err e) low high short =
      domain_error-IsBounded (some id) e
  write_versions-IsBounded id limit offset (ok items) low high short =
      (low, high, rw (length-map (to_version_dto format_millis) items) (short items refl))

  length-list_versions :
      (id : Text) (limit offset : ℕ) (items : List Version)
      → list_versions id limit offset db ≡ ok items
      → length items ≤ limit
  unfolding list_versions Contents.list_versions
  length-list_versions id limit offset items h = elim (Result-cases (get_content id db)) [
    | inl (e, missing) ↦ absurd (cc (rw missing at h))
    | inr (c, found) ↦ short_page limit _ items (rw found at h)
  ]

  versions_page-IsBounded :
      (id : Text) (q : Result ErrorDetail (ℕ × ℕ))
      → ((limit offset : ℕ) → q ≡ ok (limit, offset) → (1 ≤ limit) × (limit ≤ max_limit))
      → IsBounded (versions_page format_millis id q db)
  unfolding versions_page
  versions_page-IsBounded id (err e) h = tt
  versions_page-IsBounded id (ok (limit, offset)) h =
      let (low, high) = h limit offset refl in
      write_versions-IsBounded id limit offset (list_versions id limit offset db) low high
        (length-list_versions id limit offset)

  pub handle_list_contents-IsBounded :
      (raw_limit raw_offset : Text)
      → IsBounded (handle_list_contents format_millis raw_limit raw_offset db)
  unfolding handle_list_contents
  handle_list_contents-IsBounded raw_limit raw_offset =
      list_page-IsBounded (parse_pagination raw_limit raw_offset)
        (parse_pagination-bounds raw_limit raw_offset)

  pub handle_list_versions-IsBounded :
      (id raw_limit raw_offset : Text)
      → IsBounded (handle_list_versions format_millis id raw_limit raw_offset db)
  unfolding handle_list_versions
  handle_list_versions-IsBounded id raw_limit raw_offset =
      versions_page-IsBounded id (parse_pagination raw_limit raw_offset)
        (parse_pagination-bounds raw_limit raw_offset)
