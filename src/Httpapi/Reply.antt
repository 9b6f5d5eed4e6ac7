-- ===== src/Httpapi/Reply.antt =====
-- The replies of internal/httpapi/errors.go and the mapping of errors in admin.go. A reply is its
-- status, the ETag and Location headers and the body; the headers that are the same on every reply
-- are left out.
use qdt_test.Common.{ℕ, String, Text, Option, none, some, ok, err}
use qdt_test.Store.Model.{Db, Error, validation, slug_taken, schedule_exists, not_cancellable}
use qdt_test.Store.Model
use qdt_test.Store.Contents.{get_content}
use qdt_test.Httpapi.Etag.{format_etag}

pub data Code : Type 0 where
  unauthorized validation_error not_found slug_conflict schedule_conflict : Code
  version_conflict precondition_required internal_error : Code

-- The `details` of an error: a key with its value, or the version that a client rebases on.
pub data Details : Type 0 where
  no_details : Details
  field header : String → Details
  refused : (key : String) → (value : Text) → Details
  rebase : Option (ℕ × Text) → Details

pub record ErrorDetail : Type 0 where
  pub code : Code
  pub message : String
  pub details : Details

pub data Reply (A : Type 0) : Type 0 where
  sent : (status : ℕ) → (etag location : Option Text) → A → Reply A
  not_modified : (etag : Text) → Reply A
  failed : (status : ℕ) → ErrorDetail → Reply A

unfoldable pub write_error : {A : Type 0} → ℕ → Code → String → Details → Reply A
write_error status code message details =
    failed status (record { code = code; message = message; details = details })

unfoldable pub write_internal : {A : Type 0} → Reply A
unfolding write_error
write_internal = write_error 500 internal_error "An internal error occurred." no_details

-- The current version and its tag, where the content can be read.
unfoldable pub rebase_on : Text → Db → Option (ℕ × Text)
rebase_on id db = elim (get_content id db) [
  | err _ ↦ none
  | ok c ↦ some (c.current_version, format_etag c.current_version)
]

-- The details of a version conflict: no read where the route has no id.
unfoldable pub conflict_details : Option Text → Db → Details
unfolding rebase_on
conflict_details none db = rebase none
conflict_details (some id) db = rebase (rebase_on id db)

unfoldable pub write_domain_error : {A : Type 0} → Option Text → Error → Db → Reply A
unfolding write_error write_internal conflict_details
write_domain_error id (validation f message) db = write_error 400 validation_error message (field f)
write_domain_error id Model.not_found db =
    write_error 404 not_found "Resource not found." no_details
write_domain_error id slug_taken db =
    write_error 409 slug_conflict "That slug is already in use." no_details
write_domain_error id Model.version_conflict db =
    write_error 412 Code.version_conflict
      "The content was modified by someone else. Re-read it and retry." (conflict_details id db)
write_domain_error id schedule_exists db =
    write_error 409 schedule_conflict
      "This content already has an active schedule. Cancel it first." no_details
write_domain_error id not_cancellable db =
    write_error 409 schedule_conflict
      "The schedule is no longer pending; it was already claimed, completed, or cancelled."
      no_details
write_domain_error id e db = write_internal
