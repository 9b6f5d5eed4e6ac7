-- ===== src/Httpapi/Dto.antt =====
-- internal/httpapi/dto.go: what a client sees of a content and of its publish state.
use qdt_test.Common.{ℕ, Text, ◌==◌, not, if◌then◌else◌, Option, none, some, Bool, Result, ok, ◌>>=◌}
use qdt_test.Store.Model.{
  Db, Error, Content, Version, VersionFields, ContentWithVersion, Schedule, Status,
}
use qdt_test.Store.Contents.{get_version_by_id}
use qdt_test.Store.Public.{PublicContent}

pub record SeoDto : Type 0 where
  pub meta_title : Text
  pub meta_description : Text
  pub canonical_url : Text
  pub og_image_url : Text
  pub noindex : Bool

pub record VersionDto : Type 0 where
  pub version : ℕ
  pub title : Text
  pub body : Text
  pub seo : SeoDto
  pub created_by : Text
  pub created_at : Text

pub data ContentStatus : Type 0 where
  draft published published_with_draft : ContentStatus

pub record ContentDto : Type 0 where
  pub id : Text
  pub slug : Text
  pub version : ℕ
  pub status : ContentStatus
  pub published_at : Option Text
  pub created_at : Text
  pub updated_at : Text
  pub draft_version : VersionDto
  pub published_version : Option ℕ

pub record PublicContentDto : Type 0 where
  pub slug : Text
  pub title : Text
  pub body : Text
  pub seo : SeoDto
  pub published_at : Text
  pub updated_at : Text

pub record ScheduleDto : Type 0 where
  pub id : Text
  pub content_id : Text
  pub version : ℕ
  pub run_at : Text
  pub status : Status
  pub attempts : ℕ
  pub last_error : Text
  pub locked_by : Option Text
  pub created_at : Text
  pub updated_at : Text

-- A version that is not known counts as the current one.
differs : Content → Option ℕ → Bool
differs c none = Bool.false
differs c (some n) = not (n == c.current_version)

unfoldable pub content_status : Content → Option ℕ → ContentStatus
unfolding differs
content_status c n = elim c.published_version_id [
  | none ↦ draft
  | some _ ↦ if differs c n then published_with_draft else published
]

-- `publishedVersionNumber` of admin.go: the number of the version that the pointer names.
unfoldable pub published_version_number : Content → Db → Result Error (Option ℕ)
published_version_number c db = elim c.published_version_id [
  | none ↦ ok none
  | some id ↦ do v ← get_version_by_id id db; ok (some v.version)
]

abbrev to_seo : VersionFields → SeoDto
to_seo f = record {
  meta_title = f.meta_title;
  meta_description = f.meta_description;
  canonical_url = f.canonical_url;
  og_image_url = f.og_image_url;
  noindex = f.noindex;
}

-- The text of a time, given in milliseconds, is a parameter.
module _ (format_millis : ℕ → Text) where
  abbrev pub to_version_dto : Version → VersionDto
  to_version_dto v = record {
    version = v.version;
    title = v.fields.title;
    body = v.fields.body;
    seo = to_seo v.fields;
    created_by = v.created_by;
    created_at = format_millis v.created_at;
  }

  abbrev pub format_millis_ptr : Option ℕ → Option Text
  format_millis_ptr none = none
  format_millis_ptr (some ms) = some (format_millis ms)

  unfoldable pub to_content_dto : ContentWithVersion → Option ℕ → ContentDto
  to_content_dto r n = record {
    id = r.content.id;
    slug = r.content.slug;
    version = r.content.current_version;
    status = content_status r.content n;
    published_at = format_millis_ptr r.content.published_at;
    created_at = format_millis r.content.created_at;
    updated_at = format_millis r.content.updated_at;
    draft_version = to_version_dto r.version;
    published_version = n;
  }

  abbrev pub to_public_dto : PublicContent → PublicContentDto
  to_public_dto p = record {
    slug = p.slug;
    title = p.title;
    body = p.body;
    seo = to_seo p.fields;
    published_at = format_millis p.published_at;
    updated_at = format_millis p.updated_at;
  }

  -- The stored rowid becomes a version number again.
  unfoldable pub to_schedule_dto : Schedule → Db → Result Error ScheduleDto
  to_schedule_dto s db = do
    v ← get_version_by_id s.version_id db
    ok (record {
      id = s.id;
      content_id = s.content_id;
      version = v.version;
      run_at = format_millis s.run_at;
      status = s.status;
      attempts = s.attempts;
      last_error = s.last_error;
      locked_by = s.locked_by;
      created_at = format_millis s.created_at;
      updated_at = format_millis s.updated_at;
    })
