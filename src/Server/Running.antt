-- ===== src/Server/Running.antt =====
-- What of a process runs while it does something else.
use qdt_test.Common.{◌≡◌, refl, Bool, true, false, not, ◌&&◌, ◌||◌, List, [], ◌∷◌, ◌++◌, map, arith}
use qdt_test.Store.Open.{PoolAction, closed}
use qdt_test.Server.{
  Stopped, listener, signal, Step, on_pools, starts_worker, listens, shuts_down, waits_for_worker,
}
use qdt_test.Server.Log.{is_boot, all_boot}

abbrev is_close : Step → Bool
is_close (on_pools (closed p)) = true
is_close _ = false

-- Whether a pool is closed while something runs that one action begins and another one ends.
unfoldable pub closes_while : (begins ends : Step → Bool) → Bool → List Step → Bool
unfolding is_close
closes_while begins ends running [] = false
closes_while begins ends running (a ∷ log) =
    let rest = closes_while begins ends ((running || begins a) && not (ends a)) log in
    (running && is_close a) || rest

abbrev pub starts_work : Step → Bool
starts_work (starts_worker _ _) = true
starts_work _ = false

abbrev pub ends_work : Step → Bool
ends_work waits_for_worker = true
ends_work _ = false

-- Requests run from the listener on, and until a shutdown for which they all ended in time.
abbrev pub starts_requests : Step → Bool
starts_requests (listens _ _ _) = true
starts_requests _ = false

abbrev pub ends_requests : Step → Bool
ends_requests (shuts_down _ drained) = drained
ends_requests _ = false

abbrev pub is_listener : Stopped → Bool
is_listener (listener _) = true
is_listener signal = false

-- What the worker and the requests run under: a log that begins with what is done before.
pub boot_closes :
    (begins ends : Step → Bool) (log : List Step)
    → ((a : Step) → is_boot a ≡ true → begins a ≡ false)
    → all_boot log ≡ true
    → closes_while begins ends false log ≡ false
unfolding closes_while
boot_closes begins ends [] h b = refl
boot_closes begins ends (a ∷ log) h b =
    rw (h a (ground arith)) (boot_closes begins ends log h (ground arith))

pub pools_then :
    (begins ends : Step → Bool) (opening : List PoolAction) (rest : List Step)
    → ((a : Step) → is_boot a ≡ true → begins a ≡ false)
    → closes_while begins ends false (map on_pools opening ++ rest)
      ≡ closes_while begins ends false rest
unfolding closes_while
pools_then begins ends [] rest h = refl
pools_then begins ends (a ∷ opening) rest h =
    rw (h (on_pools a) refl) (pools_then begins ends opening rest h)

pub work_boot : (a : Step) → is_boot a ≡ true → starts_work a ≡ false
work_boot a h = ground arith

pub requests_boot : (a : Step) → is_boot a ≡ true → starts_requests a ≡ false
requests_boot a h = ground arith
