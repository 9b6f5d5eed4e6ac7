-- ===== src/Server/Shape.antt =====
-- The two courses of a process: one that ends before it serves, and one that serves.
use qdt_test.Common.{
  ℕ, ◌≡◌, refl, ap, ◌∙◌, ◌⊎◌, inl, inr, none, true, false, List, [], ◌∷◌, ◌++◌, map, Result, ok,
  err, Bool-cases, Result-cases,
}
use qdt_test.Store.Open.{
  Pool, PoolAction, OpenError, DbHandle, both_pools, close_db, close_pool, open_db, ◌▸◌,
}
use qdt_test.Store.Open.Pools.{Settled, open_db-Settled, open_after}
use qdt_test.Store.Migrate.{
  Goose, GooseAction, MigrateError, GooseOnce, migrate, configure_goose, configure_failed,
  apply_failed,
}
use qdt_test.Config.{Config, load}
use qdt_test.Server.{
  Surroundings, Step, sets_logging, on_pools, on_goose, RunError, config_failed, open_failed,
  migrate_failed, on_stop, serve_until, after_migration, with_db, with_config, run_configured, run,
  Ran,
}
use qdt_test.Server.Log.{
  all_boot, all_boot-append, all_boot-pools, migrated, both_closed, pool_log, pool_log-map,
  pool_log-goose, closed_at_end,
}

-- All that a process needs before it serves.
pub record Begun (product : ℕ → ℕ → ℕ → ℕ) (w : Surroundings) (c : Config) : Type 0 where
  pub loaded : load product w.env ≡ ok c
  pub opened : (open_db w.driver c.db_path).0 ≡ ok (both_pools c.db_path)
  pub up : (migrate w.goose none).0 ≡ ok tt

-- A process that ends before it serves.
pub record EndsEarly (product : ℕ → ℕ → ℕ → ℕ) (w : Surroundings) (r : Ran) : Type 0 where
  pub missing : (c : Config) → ¬ Begun product w c
  pub error : RunError
  pub answer : r.0 ≡ err error
  pub boot : all_boot r.1 ≡ true
  pub ended : (p : Pool) → open_after p false (pool_log r.1) ≡ false

-- What a process does that serves, given what opening the database did.
abbrev pub course : Surroundings → Config → List PoolAction → List Step
course w c opening =
    sets_logging c.log_level_is_json ∷ map on_pools opening
    ++ (migrated ++ (serve_until w c).1 ++ both_closed)

-- A process that serves.
pub record Serves (product : ℕ → ℕ → ℕ → ℕ) (w : Surroundings) (c : Config) (r : Ran) : Type 0 where
  pub begun : Begun product w c
  pub opening : List PoolAction
  pub live : (p : Pool) → open_after p false opening ≡ true
  pub shape : r ≡ ((on_stop c.shutdown_grace w.shutdown_times_out w.stopped).0, course w c opening)

module _ (g : Goose) where
  -- Goose is asked for everything pending, or the process gives up.
  migrate-cases :
      ((e : MigrateError) × ((migrate g none).0 ≡ err e)
        × (all_boot (map on_goose (migrate g none).2) ≡ true))
      ⊎ (((migrate g none).0 ≡ ok tt) × (map on_goose (migrate g none).2 ≡ migrated))
  unfolding migrate configure_goose
  migrate-cases = elim (Bool-cases g.dialect_fails) [
    | inl bad ↦ rw bad (inl (configure_failed, refl, refl))
    | inr good ↦ elim (Bool-cases g.up_fails) [
      | inl lost ↦ rw (good, lost) (inl (apply_failed, refl, refl))
      | inr done ↦ rw (good, done) (inr (refl, refl))
    ]
  ]

module _ (w : Surroundings) (c : Config) where
  after_err :
      (m : Result MigrateError (Unit {0}) × GooseOnce × List GooseAction) (e : MigrateError)
      → m.0 ≡ err e
      → after_migration w c m ≡ (err (migrate_failed e), map on_goose m.2)
  unfolding after_migration
  after_err (err x, once, log) e h = let same : x ≡ e = cc h in rw same refl
  after_err (ok x, once, log) e h = absurd (cc h)

  after_ok :
      (m : Result MigrateError (Unit {0}) × GooseOnce × List GooseAction)
      → m.0 ≡ ok tt
      → after_migration w c m ≡ map on_goose m.2 ▸ serve_until w c
  unfolding after_migration
  after_ok (err x, once, log) h = absurd (cc h)
  after_ok (ok x, once, log) h = refl

module _ (product : ℕ → ℕ → ℕ → ℕ) (w : Surroundings) where
  abbrev Course : Ran → Type 0
  Course r = EndsEarly product w r ⊎ ((c : Config) × Serves product w c r)

  -- What remains once the database is open.
  after_open-Course :
      (c : Config) (opening : List PoolAction)
      → load product w.env ≡ ok c
      → open_db w.driver c.db_path ≡ (ok (both_pools c.db_path), opening)
      → ((p : Pool) → open_after p false opening ≡ true)
      → Course (
          (sets_logging c.log_level_is_json ∷ [])
          ▸ with_db w c (ok (both_pools c.db_path), opening))
  unfolding with_db after_migration close_db close_pool serve_until pool_log
  after_open-Course c opening loaded opened live = elim (migrate-cases w.goose) [
    | inl (e, failed, boot) ↦ inl (record {
      missing = λ c' b. absurd (cc (failed, b.up));
      error = migrate_failed e;
      answer = rw (after_err w c (migrate w.goose none) e failed) refl;
      boot = rw (after_err w c (migrate w.goose none) e failed) (
          all_boot-append (map on_pools opening) _ (all_boot-pools opening)
            (all_boot-append (map on_goose (migrate w.goose none).2) both_closed boot refl));
      ended = λ p. rw (after_err w c (migrate w.goose none) e failed) (
          closed_at_end p opening _ (live p) (pool_log-goose (migrate w.goose none).2 both_closed));
    })
    | inr (done, actions) ↦ inr (
      c,
      record {
        begun = record { loaded = loaded; opened = ap (λ x. x.0) opened; up = done };
        opening = opening;
        live = live;
        shape = rw (after_ok w c (migrate w.goose none) done, actions) refl;
      },
    )
  ]

  opened-Course :
      (c : Config) (r : Result OpenError DbHandle × List PoolAction)
      → load product w.env ≡ ok c
      → open_db w.driver c.db_path ≡ r
      → Settled c.db_path r
      → Course ((sets_logging c.log_level_is_json ∷ []) ▸ with_db w c r)
  unfolding with_db pool_log
  opened-Course c (err e, log) loaded opened down = inl (record {
    missing = λ c' b.
        let same : c ≡ c' = cc (loaded, b.loaded) in
        let ready : (open_db w.driver c.db_path).0 ≡ ok (both_pools c.db_path) = rw same b.opened in
        absurd (cc (ap (λ x. x.0) opened, ready));
    error = open_failed e;
    answer = refl;
    boot = all_boot-pools log;
    ended = λ p. rw (pool_log-map log) (down p);
  })
  opened-Course c (ok h, log) loaded opened (same, up) =
      rw same (after_open-Course c log loaded (opened ∙ rw same refl) up)

  pub run-Course : Course (run product w)
  unfolding run run_configured with_config pool_log
  run-Course = elim (Result-cases (load product w.env)) [
    | inl (e, failed) ↦ rw failed (
        inl (record {
          missing = λ c b. absurd (cc (failed, b.loaded));
          error = config_failed e;
          answer = refl;
          boot = refl;
          ended = λ p. refl;
        }))
    | inr (c, loaded) ↦ rw loaded (
        opened-Course c (open_db w.driver c.db_path) loaded refl
          (open_db-Settled w.driver c.db_path))
  ]
