-- ===== src/Store/Queued.antt =====
-- What publish_schedules says of itself and of content_versions, and the changes that keep it.
use qdt_test.Common.{
  text_eq, if◌then◌else◌, Bool, true, false, ◌&&◌, ◌≡◌, inl, inr, List, [], ◌∷◌, ◌++◌, arith, any,
  update, Apart, Apart-append_last, Apart-update_mem, of_in-append_last, of_in-update,
  any-append_left, any-false,
}
use mathlib.Core.List.{Memᴰ}
use qdt_test.Store.Model.{Db, Version, Schedule, is_some}
use qdt_test.Store.Statements.{is_active, is_claimed}
use qdt_test.Store.Versioned.{belongs}

-- Two active schedules of one content.
abbrev pub Contend : Schedule → Schedule → Type 0
Contend s t =
    (is_active s.status ≡ true) × (is_active t.status ≡ true) × (s.content_id ≡ t.content_id)

-- A lease is held exactly by the claimed.
abbrev pub IsLeased : Schedule → Type 0
IsLeased s =
    (is_some s.locked_by ≡ is_claimed s.status) × (is_some s.lock_expires_at ≡ is_claimed s.status)

pub record Queued (versions : List Version) (rows : List Schedule) : Type 0 where
  pub active : Apart Contend rows
  pub leases : (s : Schedule) → Memᴰ s rows → IsLeased s
  pub targets :
      (s : Schedule) → Memᴰ s rows → any (belongs s.version_id s.content_id) versions ≡ true

abbrev pub InOrder : Db → Type 0
InOrder db = Queued db.content_versions db.publish_schedules

pub Queued-append :
    (versions : List Version) (v : Version) (rows : List Schedule)
    → Queued versions rows
    → Queued (versions ++ v ∷ []) rows
Queued-append versions v rows q = record {
  active = q.active;
  leases = q.leases;
  targets = λ s m. any-append_left _ versions (v ∷ []) (q.targets s m);
}

pub Queued-schedule :
    (versions : List Version) (rows : List Schedule) (s : Schedule)
    → any (λ r. is_active r.status && text_eq r.content_id s.content_id) rows ≡ false
    → IsLeased s
    → any (belongs s.version_id s.content_id) versions ≡ true
    → Queued versions rows
    → Queued versions (rows ++ s ∷ [])
Queued-schedule versions rows s alone leased target q = record {
  active =
      Apart-append_last Contend rows s
        (λ r m c. let miss = any-false r _ rows alone m in ground arith) q.active;
  leases = λ r m. elim (of_in-append_last rows s m) [ inl n ↦ q.leases r n | inr e ↦ rw e leased ];
  targets =
      λ r m. elim (of_in-append_last rows s m) [ inl n ↦ q.targets r n | inr e ↦ rw e target ];
}

-- Rows rewritten under their content and version, none of them made active anew.
pub Queued-update :
    (versions : List Version) (rows : List Schedule) (p : Schedule → Bool) (f : Schedule → Schedule)
    → ((s : Schedule) → ((f s).content_id ≡ s.content_id) × ((f s).version_id ≡ s.version_id))
    → ((s : Schedule)
        → Memᴰ s rows
        → p s ≡ true
        → is_active (f s).status ≡ true
        → is_active s.status ≡ true)
    → ((s : Schedule) → IsLeased (f s))
    → Queued versions rows
    → Queued versions (update p f rows)
Queued-update versions rows p f same wakes leased q = record {
  active =
      Apart-update_mem Contend p f rows
        (λ s t m n c. ground (arith, same s, same t, wakes s m, wakes t n)) q.active;
  leases = λ t m.
      let (s, n, e) = of_in-update p f rows m in rw e (ground (arith, leased s, q.leases s n));
  targets = λ t m.
      let (s, n, e) = of_in-update p f rows m in
      rw (e, same_content s, same_version s) (q.targets s n);
}
  where
    same_content : (s : Schedule) → (if p s then f s else s).content_id ≡ s.content_id
    same_content s = ground (arith, same s)

    same_version : (s : Schedule) → (if p s then f s else s).version_id ≡ s.version_id
    same_version s = ground (arith, same s)
