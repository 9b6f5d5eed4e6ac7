-- ===== src/Config/Token.antt =====
-- The admin token of internal/config/config.go at the middleware of internal/httpapi/auth.go.
use qdt_test.Common.{ℕ, Text, codes, text_eq, ◌≡◌, ◌≢◌, sym, false, [], ◌++◌, ok, trim_space, arith}
use qdt_test.Config.{Config, Env, load}
use qdt_test.Config.Loaded.{load-IsValid}
use qdt_test.Httpapi.Auth.{admits}

other_than : (s t : Text) → s ≢ t → text_eq s t ≡ false
other_than s t h = ground arith

-- A bearer token of white space only is refused by every service that has started, since a configuration
-- without a token is not loaded.
pub blank_token_refused :
    (product : ℕ → ℕ → ℕ → ℕ) (env : Env) (c : Config) (token : Text)
    → load product env ≡ ok c
    → trim_space token ≡ []
    → admits c.admin_api_token (codes "Bearer " ++ token) ≡ false
unfolding admits
blank_token_refused product env c token loaded blank =
    rw blank
      (other_than [] c.admin_api_token (λ e. (load-IsValid product env c loaded).0.token (sym e)))
