-- ===== src/Tests/Panics.antt =====
-- Transactions that panic, one after another.
use qdt_test.Common.{ℕ, ◌≡◌, true, List, [], ◌∷◌, ok, err}
use qdt_test.Store.Model.{Db, not_found, commit_failed}
use qdt_test.Store.Tx.{Conn, healthy, tx}
use qdt_test.Store.Tx.Panics.{
  Halt, returned, panicked, another_panic, idle, run_txs, settled_all, run_txs-settled,
}
use qdt_test.Store.History.{run, empty}
use qdt_test.Tests.{story, opening}

abbrev commit_lost : Conn
commit_lost = record healthy { commit_fails = true }

-- A body that drops every row and then panics, one that does so and fails, and one that writes.
abbrev attempts : List (Conn × (Db → Halt ℕ × Db))
attempts =
    (healthy, λ db. (panicked another_panic, empty))
    ∷ (healthy, λ db. (returned (err not_found), empty))
    ∷ (commit_lost, λ db. (returned (ok 1), empty))
    ∷ (healthy, λ db. (returned (ok 2), run opening empty))
    ∷ []

run_txs-settled_example : run_txs attempts (idle (run story empty)) ≡ (
  panicked another_panic
      ∷ returned (err not_found)
      ∷ returned (err commit_failed)
      ∷ returned (ok 2)
      ∷ [],
  idle (run opening empty),
)
unfolding settled_all tx
run_txs-settled_example = run_txs-settled attempts (run story empty)
