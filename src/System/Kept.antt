-- ===== src/System/Kept.antt =====
-- What no server and no worker ever takes back.
use qdt_test.Common.{◌≡◌, false, refl}
use mathlib.Core.List.{Memᴰ}
use qdt_test.Store.Model.{Db, Schedule}
use qdt_test.Store.Statements.{is_active}
use qdt_test.Store.Exactly.{Once}
use qdt_test.Store.History.Once.{step-Once}
use qdt_test.Store.History.Immutable.{Extends, Extends-same, Extends-trans, step-Extends}
use qdt_test.Store.History.Terminal.{step-Stays}
use qdt_test.System.{Turns, run_turns}
use qdt_test.System.Keeps.{run_turns-keeps}

-- No request and no worker changes or removes a stored version, in whatever order they run and
-- whichever transactions fail: content_versions afterwards is content_versions before with rows
-- appended.
pub versions_append_only :
    (es : Turns) (db : Db) → Extends db.content_versions (run_turns es db).content_versions
versions_append_only es db =
    run_turns-keeps es (λ d. Extends db.content_versions d.content_versions)
      (λ conn c d _ e. Extends-trans _ _ _ e (step-Extends conn c d)) db (Extends-same _ _ refl)

-- A schedule row that is neither pending nor claimed stays in the table unchanged, whatever servers
-- and workers do and in whatever order: a cancelled schedule is never claimed or completed
-- afterwards, and one that is done is never run again. At the start the ids of the schedules differ,
-- and events and completed schedules correspond one to one.
pub closed_for_good :
    (es : Turns) (db : Db) (s : Schedule)
    → Once db
    → is_active s.status ≡ false
    → Memᴰ s db.publish_schedules
    → Memᴰ s (run_turns es db).publish_schedules
closed_for_good es db s x closed m =
    (run_turns-keeps es (λ d. Once d × Memᴰ s d.publish_schedules)
      (λ conn c d _ (k, n). (step-Once conn c d k, step-Stays d s closed n conn c k)) db (x, m)).1
