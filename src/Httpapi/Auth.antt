-- ===== src/Httpapi/Auth.antt =====
-- internal/httpapi/auth.go: the bearer token of the admin routes.
pub mod Header
use qdt_test.Common.{Text, codes, text_eq, none, some, Bool, false, cut_prefix, trim_space}

-- Whether the request is passed on: the middleware answers 401 otherwise.
unfoldable pub admits : Text → Text → Bool
admits expected header = elim (cut_prefix (codes "Bearer ") header) [
  | none ↦ false
  | some token ↦ text_eq (trim_space token) expected
]
