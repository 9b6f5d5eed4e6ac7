-- ===== src/Server.antt =====
-- cmd/server/main.go: what one process does from its start to its end, as a log. The environment, the
-- driver, goose and what ends the service are parameters.
pub mod Log
pub mod Shape
pub mod Running
pub mod Closing
pub mod Ready
pub mod Guarded
use qdt_test.Common.{
  ℕ, Text, if◌then◌else◌, Bool, true, false, List, [], ◌∷◌, ◌++◌, map, Result, ok, err,
}
use qdt_test.Store.Open.{PoolAction, Driver, OpenError, DbHandle, close_db, open_db, ◌▸◌}
use qdt_test.Store.Migrate.{Goose, GooseAction, MigrateError, GooseOnce, migrate}
use qdt_test.Store.Migrate
use qdt_test.Config.{Config, ConfigError, Env, load}
use qdt_test.Scheduler.Worker.{Worker}
use qdt_test.Httpapi.Router
use mathlib.Core.Option.{none}

-- What ends the wait of `run`: the listener, which may have failed, or a signal.
pub data Stopped : Type 0 where
  listener : (failed : Bool) → Stopped
  signal : Stopped

pub record Surroundings : Type 0 where
  pub env : Env
  pub instance_id : Text
  pub driver : Driver
  pub goose : Goose
  pub stopped : Stopped
  pub shutdown_times_out : Bool

-- `listens` carries the address, the token and the base of the links that the handlers are built
-- with, `shuts_down` the time that running requests are given and whether they ended within it.
pub data Step : Type 0 where
  sets_logging : (json : Bool) → Step
  on_pools : PoolAction → Step
  on_goose : GooseAction → Step
  catches_signals releases_signals : Step
  starts_worker : Worker → (poll : Bool × ℕ) → Step
  listens : (addr token base : Text) → Step
  shuts_down : (grace : Bool × ℕ) → (drained : Bool) → Step
  closes_server waits_for_worker : Step

pub data RunError : Type 0 where
  config_failed : ConfigError → RunError
  open_failed : OpenError → RunError
  migrate_failed : MigrateError → RunError
  listen_failed : RunError

-- `scheduler.New`, of a configuration without a negative number.
unfoldable pub new_worker : Text → Config → Worker
new_worker instance_id c = record {
  id = instance_id;
  lease = c.lease_ttl.1;
  batch = c.batch_size.1;
  ticks = 0;
}

-- `httpapi.New`: the token and the base are the configuration's, and all else is given.
unfoldable pub new_server : Config → Router.Server → Router.Server
new_server c s = record s { admin_token = c.admin_api_token; base = c.public_base_url }

-- What a `defer` does after the rest.
infixl 15 ◌◂◌
abbrev pub ◌◂◌ : {A B : Type 0} → A × List B → List B → A × List B
(a, log) ◂ more = (a, log ++ more)

abbrev pub Ran : Type 0
Ran = Result RunError (Unit {0}) × List Step

-- The worker in its goroutine, where the configuration asks for it.
unfoldable pub start_worker : (on : Bool) → Worker → (poll : Bool × ℕ) → List Step
start_worker true worker poll = starts_worker worker poll ∷ []
start_worker false worker poll = []

-- The end of the wait. The worker is waited for whether or not one was started.
unfoldable pub on_stop : (grace : Bool × ℕ) → (times_out : Bool) → Stopped → Ran
on_stop grace times_out (listener true) = (err listen_failed, [])
on_stop grace times_out (listener false) = (ok tt, [])
on_stop grace true signal = (ok tt, shuts_down grace false ∷ closes_server ∷ waits_for_worker ∷ [])
on_stop grace false signal = (ok tt, shuts_down grace true ∷ waits_for_worker ∷ [])

module _ (w : Surroundings) (c : Config) where
  unfoldable pub serve_until : Ran
  unfolding new_worker start_worker on_stop
  serve_until =
      (catches_signals ∷ [])
        ▸ (start_worker c.scheduler_on (new_worker w.instance_id c) c.poll_interval
            ▸ (listens c.addr c.admin_api_token c.public_base_url ∷ [])
            ▸ on_stop c.shutdown_grace w.shutdown_times_out w.stopped)
      ◂ releases_signals ∷ []

  unfoldable pub after_migration :
      Result MigrateError (Unit {0}) × GooseOnce × List GooseAction → Ran
  unfolding serve_until
  after_migration (err e, once, log) = (err (migrate_failed e), map on_goose log)
  after_migration (ok _, once, log) = map on_goose log ▸ serve_until

  unfoldable pub with_db : Result OpenError DbHandle × List PoolAction → Ran
  unfolding after_migration
  with_db (err e, log) = (err (open_failed e), map on_pools log)
  with_db (ok h, log) =
      map on_pools log
      ▸ (after_migration (migrate w.goose none) ◂ map on_pools (close_db w.driver h).1)

  unfoldable pub with_config : Ran
  unfolding with_db
  with_config = (sets_logging c.log_level_is_json ∷ []) ▸ with_db (open_db w.driver c.db_path)

unfoldable pub run_configured : Surroundings → Result ConfigError Config → Ran
unfolding with_config
run_configured w (err e) = (err (config_failed e), [])
run_configured w (ok c) = with_config w c

-- `run`; a process calls Migrate once. The product is that of a duration's fraction with its unit.
unfoldable pub run : (ℕ → ℕ → ℕ → ℕ) → Surroundings → Ran
unfolding run_configured
run product w = run_configured w (load product w.env)

-- `main`.
unfoldable pub exit_code : Ran → ℕ
exit_code (err e, log) = 1
exit_code (ok _, log) = 0
