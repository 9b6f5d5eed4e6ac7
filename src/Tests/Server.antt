-- ===== src/Tests/Server.antt =====
-- The theorems about a process and its database file, at one start.
use qdt_test.Common.{
  trim_space, Text, codes, text_dec, ◌≡◌, ◌↔◌, ◌⊎◌, refl, arith, true, false, ◌&&◌, some, ◌++◌,
}
use qdt_test.Store.Open.{Driver, writer, path_dir, path_escape, base_dsn, write_dsn, pragmas}
use qdt_test.Store.Open.Pools.{open_after}
use qdt_test.Store.Open.Dsn.{cut_query, percent_decode, dsn_names_path}
use qdt_test.Store.Migrate.{Goose}
use qdt_test.Config.{Config}
use qdt_test.Server.{Surroundings, Stopped, listener, signal, run}
use qdt_test.Server.Log.{all_boot, pool_log}
use qdt_test.Server.Shape.{Begun}
use qdt_test.Server.Running.{closes_while, starts_work, ends_work, starts_requests, ends_requests}
use qdt_test.Server.Closing.{run-closes, run-closes_under}
use qdt_test.Server.Ready.{Ready, run-Ready}
use qdt_test.Server.{new_server}
use qdt_test.Server.Guarded.{blank_token_writes_nothing}
use qdt_test.Httpapi.Router.{Request, serve}
use qdt_test.Store.History
use qdt_test.Tests.{opening}
use qdt_test.Tests.Routing.{first_fit, first_fit-PicksMatching, server, admission}
use qdt_test.Tests.Startup.{exact, environment, loaded, loaded_so}

-- `filepath.Dir` takes the last element off, and cleans what is left.
dir_of_default : path_dir (codes "./data/qdt.db") ≡ codes "data"
unfolding path_dir text_dec
dir_of_default = refl

dir_of_name : path_dir (codes "qdt.db") ≡ codes "."
unfolding path_dir text_dec
dir_of_name = refl

dir_above : path_dir (codes "/var//lib/../x/./y.db") ≡ codes "/var/x"
unfolding path_dir text_dec
dir_above = refl

escaped : path_escape (codes "a b?c/d") ≡ codes "a%20b%3Fc%2Fd"
unfolding path_escape
escaped = refl

abbrev healthy_driver : Driver
healthy_driver = record {
  mkdir_fails = false;
  open_fails = λ p. false;
  ping_fails = λ p. false;
  close_fails = λ p. false;
  cpus = 8;
}

abbrev fresh_goose : Goose
fresh_goose = record {
  dialect_fails = false;
  up_fails = false;
  down_fails = false;
  version = some 1;
}

abbrev start : Stopped → Surroundings
start stopped = record {
  env = environment;
  instance_id = codes "w1";
  driver = healthy_driver;
  goose = fresh_goose;
  stopped = stopped;
  shutdown_times_out = false;
}

dsn_names_path_example :
    (name : Text) × (cut_query (base_dsn (codes "a?b")) ≡ (codes "file:" ++ name, pragmas))
    × (cut_query (write_dsn (codes "a?b"))
        ≡ (codes "file:" ++ name, pragmas ++ codes "&_txlock=immediate"))
    × (percent_decode name ≡ codes "a?b")
dsn_names_path_example =
    dsn_names_path (codes "a?b") (omega arith, (omega arith, (omega arith, tt)))

run-closes_example :
    open_after writer false (pool_log (run exact (start (listener true))).1) ≡ false
run-closes_example = run-closes exact (start (listener true)) writer

run-closes_under_example :
    ((closes_while starts_work ends_work false (run exact (start (listener true))).1 ≡ true)
      ↔ ((c : Config) × Begun exact (start (listener true)) c × ((c.scheduler_on && true) ≡ true)))
    × ((closes_while starts_requests ends_requests false (run exact (start (listener true))).1
          ≡ true)
        ↔ ((c : Config) × Begun exact (start (listener true)) c × (true ≡ true)))
run-closes_under_example = run-closes_under exact (start (listener true))

run-Ready_example : (all_boot (run exact (start signal)).1 ≡ true) ⊎ Ready exact (start signal)
run-Ready_example = run-Ready exact (start signal)

abbrev blank : Request
blank = record admission { authorization = codes "Bearer   " }

blank_token_writes_nothing_example :
    (serve first_fit (new_server loaded server) blank (History.run opening History.empty)).1
    ≡ History.run opening History.empty
unfolding trim_space
blank_token_writes_nothing_example =
    blank_token_writes_nothing exact environment loaded first_fit server blank
      (History.run opening History.empty) (codes "  ") loaded_so first_fit-PicksMatching refl refl
