-- ===== src/Server/Log.antt =====
-- Parts of the log of a process.
use qdt_test.Common.{◌≡◌, refl, Bool, true, false, ◌&&◌, List, [], ◌∷◌, ◌++◌, map, arith}
use qdt_test.Store.Open.{Pool, reader, writer, PoolAction, closed}
use qdt_test.Store.Open.Pools.{open_after, open_after-append}
use qdt_test.Store.Migrate.{GooseAction, set_base_fs, set_logger, set_dialect, up_to_last}
use qdt_test.Server.{Step, sets_logging, on_pools, on_goose}

-- What is done before the service: nothing that is still to end.
abbrev pub is_boot : Step → Bool
is_boot (sets_logging _) = true
is_boot (on_pools _) = true
is_boot (on_goose _) = true
is_boot _ = false

abbrev pub all_boot : List Step → Bool
all_boot [] = true
all_boot (a ∷ log) = let rest = all_boot log in is_boot a && rest

pub all_boot-append :
    (log more : List Step)
    → all_boot log ≡ true
    → all_boot more ≡ true
    → all_boot (log ++ more) ≡ true
all_boot-append [] more h k = k
all_boot-append (a ∷ log) more h k = ground (arith, all_boot-append log more)

pub all_boot-pools : (log : List PoolAction) → all_boot (map on_pools log) ≡ true
all_boot-pools [] = refl
all_boot-pools (a ∷ log) = all_boot-pools log

abbrev pub migrated : List Step
migrated =
    on_goose set_base_fs ∷ on_goose set_logger ∷ on_goose set_dialect ∷ on_goose up_to_last ∷ []

abbrev pub both_closed : List Step
both_closed = on_pools (closed reader) ∷ on_pools (closed writer) ∷ []

-- What is done to the pools.
unfoldable pub pool_log : List Step → List PoolAction
pool_log [] = []
pool_log (on_pools a ∷ log) = a ∷ pool_log log
pool_log (_ ∷ log) = pool_log log

pub pool_log-pools :
    (opening : List PoolAction) (rest : List Step)
    → pool_log (map on_pools opening ++ rest) ≡ opening ++ pool_log rest
unfolding pool_log
pool_log-pools [] rest = refl
pool_log-pools (a ∷ opening) rest = rw (pool_log-pools opening rest) refl

pub pool_log-map : (opening : List PoolAction) → pool_log (map on_pools opening) ≡ opening
unfolding pool_log
pool_log-map [] = refl
pool_log-map (a ∷ opening) = rw (pool_log-map opening) refl

pub pool_log-goose :
    (setup : List GooseAction) (rest : List Step)
    → pool_log (map on_goose setup ++ rest) ≡ pool_log rest
unfolding pool_log
pool_log-goose [] rest = refl
pool_log-goose (a ∷ setup) rest = pool_log-goose setup rest

-- Pools that are opened and then closed.
pub closed_at_end :
    (p : Pool) (opening : List PoolAction) (rest : List Step)
    → open_after p false opening ≡ true
    → pool_log rest ≡ closed reader ∷ closed writer ∷ []
    → open_after p false (pool_log (map on_pools opening ++ rest)) ≡ false
closed_at_end p opening rest up h =
    rw
      (
        pool_log-pools opening rest,
        h,
        open_after-append p false opening (closed reader ∷ closed writer ∷ []),
        up,
      )
      (both p)
  where
    both : (p : Pool) → open_after p true (closed reader ∷ closed writer ∷ []) ≡ false
    both reader = refl
    both writer = refl
