-- ===== src/Store/History/Immutable.antt =====
-- Histories of internal/store: the rows of content_versions.
use qdt_test.Common.{◌≡◌, refl, sym, ◌∙◌, List, [], ◌++◌}
use mathlib.Core.List.{append-nil, append_assoc}
use qdt_test.Store.Model.{Db, Version}
use qdt_test.Store.Tx.{Conn}
use qdt_test.Store.Tx.Rules.{tx-keeps}
use qdt_test.Store.Contents.{
  create_content, create_content_body, update_content, update_content_body,
}
use qdt_test.Store.Contents.Consistent.{create_content_body-rows, update_content_body-rows}
use qdt_test.Store.Publish.InOrder.{publish-SameQueue, unpublish-SameQueue}
use qdt_test.Store.Schedules.Consistent.{
  create_schedule-SameVersions, cancel_schedule-SameVersions, claim_due_schedules-SameVersions,
  complete_scheduled_publish-SameRows, fail_schedule-SameVersions, release_claims-SameVersions,
}
use qdt_test.Store.History.{
  Call, creates, updates, publishes, unpublishes, schedules, cancels, claims, completes, fails,
  releases, by_hand, step,
}

-- The later table is the earlier one with rows added at its end.
abbrev pub Extends : List Version → List Version → Type 0
Extends before after = (added : List Version) × (after ≡ before ++ added)

pub Extends-same : (before after : List Version) → after ≡ before → Extends before after
Extends-same before after e = ([], e ∙ sym (append-nil before))

pub Extends-trans : (a b c : List Version) → Extends a b → Extends b c → Extends a c
Extends-trans a b c (xs, e) (ys, h) = (xs ++ ys, rw (h, e) (append_assoc a xs ys))

pub step-Extends :
    (conn : Conn) (c : Call) (db : Db)
    → Extends db.content_versions (step conn c db).content_versions
unfolding step create_content update_content
step-Extends conn (creates id slug f actor now) db =
    tx-keeps conn (create_content_body id slug f actor now) db
      (λ d. Extends db.content_versions d.content_versions) (Extends-same _ _ refl)
      (λ r after run. (_, (create_content_body-rows id slug f actor now db after r run).3))
step-Extends conn (updates id expected f actor now) db =
    tx-keeps conn (update_content_body id expected f actor now) db
      (λ d. Extends db.content_versions d.content_versions) (Extends-same _ _ refl)
      (λ r after run. (_, (update_content_body-rows id expected f actor now db after r run).2))
step-Extends conn (publishes id version_id actor now) db =
    Extends-same _ _ (publish-SameQueue conn db (by_hand id version_id actor now)).1
step-Extends conn (unpublishes id actor now) db =
    Extends-same _ _ (unpublish-SameQueue conn db id actor now).1
step-Extends conn (schedules id content_id version_id run_at now) db =
    Extends-same _ _ (create_schedule-SameVersions conn db id content_id version_id run_at now).1
step-Extends conn (cancels id now) db =
    Extends-same _ _ (cancel_schedule-SameVersions conn db id now).1
step-Extends conn (claims worker now expiry limit) db =
    Extends-same _ _ (claim_due_schedules-SameVersions conn db worker now expiry limit).1
step-Extends conn (completes job worker now) db =
    Extends-same _ _ (complete_scheduled_publish-SameRows conn db job worker now)
step-Extends conn (fails id worker reason now) db =
    Extends-same _ _ (fail_schedule-SameVersions conn db id worker reason now).1
step-Extends conn (releases worker now) db =
    Extends-same _ _ (release_claims-SameVersions conn db worker now).1
