-- ===== src/Server/Closing.antt =====
-- What a process still has running when it closes the database.
use qdt_test.Common.{
  ℕ, Text, ◌≡◌, refl, ◌∙◌, ◌↔◌, inl, inr, Bool, true, false, ◌&&◌, ◌||◌, List, [], ◌∷◌, ◌++◌,
}
use qdt_test.Store.Open.{Pool, reader, writer, closed}
use qdt_test.Store.Open.Pools.{open_after}
use qdt_test.Config.{Config}
use qdt_test.Scheduler.Worker.{Worker}
use qdt_test.Server.{
  sets_logging, Surroundings, Stopped, listener, signal, Step, catches_signals, releases_signals,
  listens, run, new_worker, serve_until, start_worker, on_stop,
}
use qdt_test.Server.Log.{is_boot, migrated, both_closed, pool_log, closed_at_end}
use qdt_test.Server.Shape.{Begun, Serves, run-Course}
use qdt_test.Server.Running.{
  closes_while, starts_work, ends_work, starts_requests, ends_requests, is_listener, boot_closes,
  pools_then, work_boot, requests_boot,
}

-- The log of a service, from the migration on.
abbrev service :
    (on times_out : Bool)
    → Stopped
    → Worker
    → (poll grace : Bool × ℕ) → (addr token base : Text) → List Step
service on times_out s worker poll grace addr token base =
    migrated
    ++ (catches_signals ∷ start_worker on worker poll
        ++ (listens addr token base ∷ (on_stop grace times_out s).1)
        ++ releases_signals ∷ [])
    ++ both_closed

module _ (worker : Worker) (poll grace : Bool × ℕ) (addr token base : Text) where
  service-pools :
      (on times_out : Bool) (s : Stopped)
      → pool_log (service on times_out s worker poll grace addr token base)
        ≡ closed reader ∷ closed writer ∷ []
  unfolding pool_log start_worker on_stop
  service-pools true times_out (listener true) = refl
  service-pools true times_out (listener false) = refl
  service-pools false times_out (listener true) = refl
  service-pools false times_out (listener false) = refl
  service-pools true true signal = refl
  service-pools true false signal = refl
  service-pools false true signal = refl
  service-pools false false signal = refl

  -- Whether a pool is closed under the worker.
  service-worker :
      (on times_out : Bool) (s : Stopped)
      → closes_while starts_work ends_work false
          (service on times_out s worker poll grace addr token base)
        ≡ (on && is_listener s)
  unfolding closes_while start_worker on_stop
  service-worker true times_out (listener true) = refl
  service-worker true times_out (listener false) = refl
  service-worker false times_out (listener true) = refl
  service-worker false times_out (listener false) = refl
  service-worker true true signal = refl
  service-worker true false signal = refl
  service-worker false true signal = refl
  service-worker false false signal = refl

  -- Whether a pool is closed under a request.
  service-requests :
      (on times_out : Bool) (s : Stopped)
      → closes_while starts_requests ends_requests false
          (service on times_out s worker poll grace addr token base)
        ≡ (is_listener s || times_out)
  unfolding closes_while start_worker on_stop
  service-requests true times_out (listener true) = refl
  service-requests true times_out (listener false) = refl
  service-requests false times_out (listener true) = refl
  service-requests false times_out (listener false) = refl
  service-requests true true signal = refl
  service-requests true false signal = refl
  service-requests false true signal = refl
  service-requests false false signal = refl

abbrev service_of : Surroundings → Config → List Step
unfolding new_worker
service_of w c =
    service c.scheduler_on w.shutdown_times_out w.stopped (new_worker w.instance_id c)
      c.poll_interval c.shutdown_grace c.addr c.admin_api_token c.public_base_url

module _ (product : ℕ → ℕ → ℕ → ℕ) (w : Surroundings) where
  -- Every pool that a process opens it closes, wherever the process ends: on an error of any step
  -- before the service, when its listener fails, and after a signal.
  pub run-closes : (p : Pool) → open_after p false (pool_log (run product w).1) ≡ false
  unfolding pool_log serve_until
  run-closes p = elim (run-Course product w) [
    | inl early ↦ early.ended p
    | inr (c, served) ↦ rw served.shape (
        closed_at_end p served.opening (service_of w c) (served.live p) (
          service-pools (new_worker w.instance_id c) c.poll_interval c.shutdown_grace c.addr
            c.admin_api_token c.public_base_url c.scheduler_on w.shutdown_times_out w.stopped))
  ]

  module _ (begins ends : Step → Bool) (f : Config → Bool)
      (late : (a : Step) → is_boot a ≡ true → begins a ≡ false)
      (after : (c : Config) → closes_while begins ends false (service_of w c) ≡ f c) where
    served-closes_while :
        (c : Config)
        → Serves product w c (run product w)
        → closes_while begins ends false (run product w).1 ≡ f c
    unfolding serve_until closes_while
    served-closes_while c served =
        rw (served.shape, late (sets_logging c.log_level_is_json) refl)
          (pools_then begins ends served.opening (service_of w c) late ∙ after c)

    run-closes_while :
        (closes_while begins ends false (run product w).1 ≡ true)
        ↔ ((c : Config) × Begun product w c × (f c ≡ true))
    run-closes_while = elim (run-Course product w) [
      | inl early ↦ (
        (λ h. absurd (cc (h, boot_closes begins ends (run product w).1 late early.boot))),
        (λ (c, b, k). absurd (early.missing c b)),
      )
      | inr (c, served) ↦ (
        (λ h. (c, served.begun, cc (h, served-closes_while c served))),
        (λ (d, b, k).
            let same : c ≡ d = cc (served.begun.loaded, b.loaded) in
            served-closes_while c served ∙ (rw same k)),
      )
    ]

  closes_under_worker :
      (closes_while starts_work ends_work false (run product w).1 ≡ true)
      ↔ ((c : Config) × Begun product w c × ((c.scheduler_on && is_listener w.stopped) ≡ true))
  unfolding service_of
  closes_under_worker =
      run-closes_while starts_work ends_work (λ c. c.scheduler_on && is_listener w.stopped)
        work_boot
        (λ c.
          service-worker (new_worker w.instance_id c) c.poll_interval c.shutdown_grace c.addr
            c.admin_api_token c.public_base_url c.scheduler_on w.shutdown_times_out w.stopped)

  closes_under_requests :
      (closes_while starts_requests ends_requests false (run product w).1 ≡ true) ↔ (
        (c : Config) × Begun product w c × ((is_listener w.stopped || w.shutdown_times_out) ≡ true))
  unfolding service_of
  closes_under_requests =
      run-closes_while starts_requests ends_requests
        (λ c. is_listener w.stopped || w.shutdown_times_out) requests_boot
        (λ c.
          service-requests (new_worker w.instance_id c) c.poll_interval c.shutdown_grace c.addr
            c.admin_api_token c.public_base_url c.scheduler_on w.shutdown_times_out w.stopped)

  -- A pool is closed while the worker may run exactly where the service comes up with a scheduler and
  -- ends by its listener: after a signal the worker has stopped before. A pool is closed while requests
  -- may run exactly where the service comes up and ends by its listener, or ends by a signal and a
  -- request outlives the time that the shutdown gives.
  pub run-closes_under :
      ((closes_while starts_work ends_work false (run product w).1 ≡ true)
        ↔ ((c : Config) × Begun product w c × ((c.scheduler_on && is_listener w.stopped) ≡ true)))
      × ((closes_while starts_requests ends_requests false (run product w).1 ≡ true) ↔ (
          (c : Config) × Begun product w c
          × ((is_listener w.stopped || w.shutdown_times_out) ≡ true)))
  run-closes_under = (closes_under_worker, closes_under_requests)
