-- ===== src/Server/Ready.antt =====
-- What has happened before a process serves, and how it ends.
use qdt_test.Common.{
  ℕ, ◌≡◌, ◌≢◌, refl, sym, ◌↔◌, ◌⊎◌, inl, inr, Bool, true, false, List, [], ◌∷◌, ◌++◌, map, ok, err,
}
use mathlib.Core.List.{Memᴰ, append_assoc, append-nil}
use mathlib.Core.List.Memᴰ
use qdt_test.Store.Open.{Pool, PoolAction}
use qdt_test.Store.Open.Pools.{open_after}
use qdt_test.Store.Migrate.{up_to_last}
use qdt_test.Config.{Config}
use qdt_test.Config.Valid.{IsValid}
use qdt_test.Config.Loaded.{load-IsValid}
use qdt_test.Scheduler.Worker.{Worker}
use qdt_test.Server.{
  Surroundings, Stopped, listener, signal, Step, sets_logging, on_pools, on_goose, catches_signals,
  releases_signals, listens, run, Ran, RunError, on_stop, exit_code, serve_until, new_worker,
  start_worker,
}
use qdt_test.Server.Log.{all_boot, migrated, both_closed, pool_log, pool_log-pools}
use qdt_test.Server.Shape.{Begun, Serves, run-Course, course}

on_stop-exit :
    (grace : Bool × ℕ) (late : Bool) (s : Stopped) (log : List Step)
    → (exit_code ((on_stop grace late s).0, log) ≡ 0) ↔ (s ≢ listener true)
unfolding exit_code on_stop
on_stop-exit grace late (listener true) log = ((λ h. absurd (cc h)), (λ h. absurd (h refl)))
on_stop-exit grace late (listener false) log = ((λ h e. absurd (cc e)), (λ h. refl))
on_stop-exit grace true signal log = ((λ h e. absurd (cc e)), (λ h. refl))
on_stop-exit grace false signal log = ((λ h e. absurd (cc e)), (λ h. refl))

err-exit : (r : Ran) (e : RunError) → r.0 ≡ err e → exit_code r ≡ 1
unfolding exit_code
err-exit (err x, log) e h = refl
err-exit (ok x, log) e h = absurd (cc h)

-- What precedes the listener.
abbrev before_listener : Surroundings → Config → List PoolAction → List Step
unfolding start_worker new_worker
before_listener w c opening =
    sets_logging c.log_level_is_json ∷ map on_pools opening
    ++ (migrated
        ++ catches_signals
          ∷ start_worker c.scheduler_on (new_worker w.instance_id c) c.poll_interval)

abbrev after_listener : Surroundings → Config → List Step
unfolding on_stop
after_listener w c =
    (on_stop c.shutdown_grace w.shutdown_times_out w.stopped).1
    ++ releases_signals ∷ []
    ++ both_closed

-- A process is ready at its listener: the configuration is valid, both pools are open, everything
-- pending is migrated, and signals are caught.
pub record Ready (product : ℕ → ℕ → ℕ → ℕ) (w : Surroundings) : Type 0 where
  pub config : Config
  pub begun : Begun product w config
  pub valid : IsValid config
  pub before : List Step
  pub after : List Step
  pub shape :
      (run product w).1
      ≡ before ++ listens config.addr config.admin_api_token config.public_base_url ∷ after
  pub pools : (p : Pool) → open_after p false (pool_log before) ≡ true
  pub migration : Memᴰ (on_goose up_to_last) before
  pub signals : Memᴰ catches_signals before

split_service :
    (on : Bool) (worker : Worker) (poll : Bool × ℕ) (listening : Step) (stop : List Step)
    → (migrated
        ++ (catches_signals ∷ start_worker on worker poll
            ++ (listening ∷ stop)
            ++ releases_signals ∷ [])
        ++ both_closed)
      ≡ (migrated ++ catches_signals ∷ start_worker on worker poll)
        ++ listening ∷ (stop ++ releases_signals ∷ [] ++ both_closed)
unfolding start_worker
split_service true worker poll listening stop = refl
split_service false worker poll listening stop = refl

quiet_start :
    (on : Bool) (worker : Worker) (poll : Bool × ℕ)
    → pool_log (migrated ++ catches_signals ∷ start_worker on worker poll) ≡ []
unfolding pool_log start_worker
quiet_start true worker poll = refl
quiet_start false worker poll = refl

module _ (product : ℕ → ℕ → ℕ → ℕ) (w : Surroundings) where
  served-shape :
      (c : Config) (served : Serves product w c (run product w))
      → (run product w).1
        ≡ before_listener w c served.opening
          ++ listens c.addr c.admin_api_token c.public_base_url ∷ after_listener w c
  unfolding serve_until before_listener after_listener
  served-shape c served =
      rw
        (
          served.shape,
          split_service c.scheduler_on (new_worker w.instance_id c) c.poll_interval
              (listens c.addr c.admin_api_token c.public_base_url)
              (on_stop c.shutdown_grace w.shutdown_times_out w.stopped).1,
        )
        (sym (
          append_assoc (sets_logging c.log_level_is_json ∷ map on_pools served.opening)
            (migrated
              ++ catches_signals
                ∷ start_worker c.scheduler_on (new_worker w.instance_id c) c.poll_interval)
            (listens c.addr c.admin_api_token c.public_base_url ∷ after_listener w c)))

  served-pools :
      (c : Config) (served : Serves product w c (run product w)) (p : Pool)
      → open_after p false (pool_log (before_listener w c served.opening)) ≡ true
  unfolding before_listener pool_log
  served-pools c served p =
      rw
        (
          pool_log-pools served.opening (
              migrated
              ++ catches_signals
                ∷ start_worker c.scheduler_on (new_worker w.instance_id c) c.poll_interval),
          quiet_start c.scheduler_on (new_worker w.instance_id c) c.poll_interval,
          append-nil served.opening,
        )
        (served.live p)

  -- A process either does nothing but set itself up, and serves no request and starts no worker, or it
  -- listens once the configuration is valid, both pools are open, the migrations are applied and
  -- signals are caught, with the token and the base of that configuration.
  pub run-Ready : (all_boot (run product w).1 ≡ true) ⊎ Ready product w
  unfolding before_listener
  run-Ready = elim (run-Course product w) [
    | inl early ↦ inl early.boot
    | inr (c, served) ↦ inr (record {
      config = c;
      begun = served.begun;
      valid = (load-IsValid product w.env c served.begun.loaded).0;
      before = before_listener w c served.opening;
      after = after_listener w c;
      shape = served-shape c served;
      pools = served-pools c served;
      migration = Memᴰ.tail (
          Memᴰ.append_right (map on_pools served.opening)
            (Memᴰ.tail (Memᴰ.tail (Memᴰ.tail (Memᴰ.head refl)))));
      signals = Memᴰ.tail (
          Memᴰ.append_right (map on_pools served.opening)
            (Memᴰ.tail (Memᴰ.tail (Memᴰ.tail (Memᴰ.tail (Memᴰ.head refl))))));
    })
  ]

  -- The process exits with 0 exactly where the configuration loads, the database opens, the migrations
  -- apply, and the listener does not fail.
  pub exit_zero :
      (exit_code (run product w) ≡ 0)
      ↔ ((c : Config) × Begun product w c × (w.stopped ≢ listener true))
  exit_zero = elim (run-Course product w) [
    | inl early ↦ (
      (λ h.
          let failed = err-exit (run product w) early.error early.answer in
          absurd (cc (h, failed))),
      (λ (c, b, k). absurd (early.missing c b)),
    )
    | inr (c, served) ↦
        let ends =
          on_stop-exit c.shutdown_grace w.shutdown_times_out w.stopped
            (course w c served.opening) in
        (
          (λ h. (c, served.begun, ends.0 (rw served.shape at h))),
          (λ (d, b, k). rw served.shape (ends.1 k)),
        )
  ]
