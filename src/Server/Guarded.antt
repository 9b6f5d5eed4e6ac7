-- ===== src/Server/Guarded.antt =====
-- From the environment of a process to the requests that it lets through.
use qdt_test.Common.{ℕ, Text, codes, ◌≡◌, [], ◌++◌, ok, trim_space}
use qdt_test.Store.Model.{Db}
use qdt_test.Config.{Config, Env, load}
use qdt_test.Config.Token.{blank_token_refused}
use qdt_test.Httpapi.Router.{Request, Router, serve}
use qdt_test.Httpapi.Router
use qdt_test.Httpapi.Router.Token.{PicksMatching, no_token_no_write}
use qdt_test.Server.{new_server}

-- A service that has loaded its configuration lets no request write that bears a token of white space
-- only, whatever its environment says, where the router picks routes of the table that fit.
pub blank_token_writes_nothing :
    (product : ℕ → ℕ → ℕ → ℕ) (env : Env) (c : Config) (router : Router) (s : Router.Server)
    (q : Request) (db : Db) (token : Text)
    → load product env ≡ ok c
    → PicksMatching router
    → q.authorization ≡ codes "Bearer " ++ token
    → trim_space token ≡ []
    → (serve router (new_server c s) q db).1 ≡ db
unfolding new_server
blank_token_writes_nothing product env c router s q db token loaded picks bearer blank =
    no_token_no_write router (new_server c s) q db picks
      (rw bearer (blank_token_refused product env c token loaded blank))
