-- ===== src/Store/Model.antt =====
-- internal/store/models.go and the tables of migrations/00001_init.sql.
use qdt_test.Common.{ℕ, String, Text, Option, none, some, Bool, true, false, List}

pub data SqlError : Type 0 where
  unique primary_key foreign_key : SqlError

-- The sentinel errors, a statement's error under the context that `fmt.Errorf` adds to it, the two
-- errors of `Tx` itself, and the domain layer's `ValidationError`.
pub data Error : Type 0 where
  not_found version_conflict slug_taken schedule_exists not_cancellable lease_lost : Error
  wrapped : String → SqlError → Error
  begin_failed commit_failed : Error
  validation : String → String → Error

pub record Content : Type 0 where
  pub id : Text
  pub slug : Text
  pub current_version : ℕ
  pub published_version_id : Option ℕ
  pub published_at : Option ℕ
  pub created_at : ℕ
  pub updated_at : ℕ

abbrev pub is_some : {A : Type 0} → Option A → Bool
is_some none = false
is_some (some a) = true

unfoldable pub is_published : Content → Bool
is_published c = is_some c.published_version_id

pub record VersionFields : Type 0 where
  pub title : Text
  pub body : Text
  pub meta_title : Text
  pub meta_description : Text
  pub canonical_url : Text
  pub og_image_url : Text
  pub noindex : Bool

pub record Version : Type 0 where
  pub id : ℕ
  pub content_id : Text
  pub version : ℕ
  pub created_by : Text
  pub created_at : ℕ
  pub fields : VersionFields

pub record ContentWithVersion : Type 0 where
  pub content : Content
  pub version : Version

pub data Status : Type 0 where
  pending claimed done cancelled failed : Status

pub record Schedule : Type 0 where
  pub id : Text
  pub content_id : Text
  pub version_id : ℕ
  pub run_at : ℕ
  pub status : Status
  pub attempts : ℕ
  pub locked_by : Option Text
  pub lock_expires_at : Option ℕ
  pub last_error : Text
  pub created_at : ℕ
  pub updated_at : ℕ

pub data Action : Type 0 where
  publish unpublish : Action

pub data Source : Type 0 where
  manual scheduled : Source

pub record Event : Type 0 where
  pub id : ℕ
  pub content_id : Text
  pub version_id : Option ℕ
  pub action : Action
  pub source : Source
  pub schedule_id : Option Text
  pub actor : Text
  pub occurred_at : ℕ

-- The four tables and the two AUTOINCREMENT counters.
pub record Db : Type 0 where
  pub contents : List Content
  pub content_versions : List Version
  pub publish_schedules : List Schedule
  pub publish_events : List Event
  pub next_version_id : ℕ
  pub next_event_id : ℕ
