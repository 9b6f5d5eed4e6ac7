-- ===== src/Store/History/Atomic.antt =====
-- Calls of internal/store that are refused.
use qdt_test.Common.{◌≡◌, ◌≢◌, Bool, true, Result, ok, err, arith}
use qdt_test.Store.Model.{Db, Error}
use qdt_test.Store.Tx.{Conn}
use qdt_test.Store.Tx.Rules.{tx-err}
use qdt_test.Store.Contents.{create_content, update_content}
use qdt_test.Store.Publish.{publish, unpublish}
use qdt_test.Store.Schedules.{
  create_schedule, cancel_schedule, claim_due_schedules, fail_schedule, release_claims,
}
use qdt_test.Store.Schedules.Complete.{complete_refused}
use qdt_test.Store.History.{
  Call, creates, updates, publishes, unpublishes, schedules, cancels, claims, completes, fails,
  releases, step, answer, outcome, completion,
}

outcome-err : {A : Type 0} (r : Result Error A) (e : Error) → outcome r ≡ err e → r ≡ err e
outcome-err (ok a) e h = cc
outcome-err (err d) e h = ground arith

completion-ne-err : (r : Result Error Bool) (e : Error) → r ≡ ok true → completion r ≢ err e
completion-ne-err r e done h = ground arith

-- Whatever call is answered by an error, and a completion also where it is answered that the lease
-- is lost, the database is what it was.
pub refused_writes_nothing :
    (conn : Conn) (c : Call) (db : Db) (e : Error) → answer conn c db ≡ err e → step conn c db ≡ db
unfolding answer step create_content update_content publish unpublish create_schedule
    cancel_schedule claim_due_schedules fail_schedule release_claims
refused_writes_nothing conn (creates id slug f actor now) db e h =
    tx-err conn _ db e (outcome-err _ e h)
refused_writes_nothing conn (updates id expected f actor now) db e h =
    tx-err conn _ db e (outcome-err _ e h)
refused_writes_nothing conn (publishes id version_id actor now) db e h =
    tx-err conn _ db e (outcome-err _ e h)
refused_writes_nothing conn (unpublishes id actor now) db e h =
    tx-err conn _ db e (outcome-err _ e h)
refused_writes_nothing conn (schedules id content_id version_id run_at now) db e h =
    tx-err conn _ db e (outcome-err _ e h)
refused_writes_nothing conn (cancels id now) db e h = tx-err conn _ db e h
refused_writes_nothing conn (claims worker now expiry limit) db e h =
    tx-err conn _ db e (outcome-err _ e h)
refused_writes_nothing conn (completes job worker now) db e h =
    complete_refused conn job worker now db (λ done. completion-ne-err _ e done h)
refused_writes_nothing conn (fails id worker reason now) db e h = tx-err conn _ db e h
refused_writes_nothing conn (releases worker now) db e h = tx-err conn _ db e (outcome-err _ e h)
