-- ===== src/Store/History/Terminal.antt =====
-- Histories of internal/store: schedules that are done or cancelled.
use qdt_test.Common.{◌≡◌, false, arith, Bool-cases, inl, inr}
use mathlib.Core.List.{Memᴰ}
use qdt_test.Store.Model.{Db, Schedule}
use qdt_test.Store.Tx.{Conn}
use qdt_test.Store.Statements.{is_active}
use qdt_test.Store.Exactly.{Once}
use qdt_test.Store.Schedules.{due_rows, id_in}
use qdt_test.Store.Schedules.Once.{id_in-open}
use qdt_test.Store.History.Row.{Spares, spared-Stays}
use qdt_test.Store.History.{
  Call, creates, updates, publishes, unpublishes, schedules, cancels, claims, completes, fails,
  releases, step,
}

module _ (db : Db) (s : Schedule) (closed : is_active s.status ≡ false)
    (m : Memᴰ s db.publish_schedules) where
  closed-Spares : (c : Call) → Once db → Spares c db s
  closed-Spares (creates id slug f actor now) x = tt
  closed-Spares (updates id expected f actor now) x = tt
  closed-Spares (publishes id version_id actor now) x = tt
  closed-Spares (unpublishes id actor now) x = tt
  closed-Spares (schedules id content_id version_id run_at now) x = tt
  closed-Spares (cancels id now) x = ground arith
  closed-Spares (claims worker now expiry limit) x =
      elim (Bool-cases (id_in (due_rows now limit db.publish_schedules) s)) [
        | inl chosen ↦
            let due = id_in-open now limit db.publish_schedules x.ids s m chosen in
            absurd (ground arith)
        | inr left ↦ left
      ]
  closed-Spares (completes job worker now) x = ground arith
  closed-Spares (fails id worker reason now) x = ground arith
  closed-Spares (releases worker now) x = ground arith

  pub step-Stays : (conn : Conn) (c : Call) → Once db → Memᴰ s (step conn c db).publish_schedules
  step-Stays conn c x = spared-Stays conn db s m c (closed-Spares c x)
