-- ===== src/Store/History/Exclusive.antt =====
-- Histories of internal/store: a lease that runs.
use qdt_test.Common.{
  ℕ, ◌<◌, Text, ◌≡◌, ◌≢◌, refl, sym, ap, true, false, some, List, [], ◌∷◌, ok, arith, Bool-cases,
  inl, inr, in-update, Apart-eq,
}
use mathlib.Core.List.{Memᴰ}
use mathlib.Core.List.Memᴰ
use qdt_test.Store.Model.{Db, Schedule, claimed}
use qdt_test.Store.Tx.{Conn}
use qdt_test.Store.Exactly.{Once, SameId}
use qdt_test.Store.Schedules.{
  ClaimedJob, claim_due_schedules, claim_body, due_rows, is_due, id_in, lease, job_of, holds,
  held_by,
}
use qdt_test.Store.Schedules.Once.{claim_body-frame, id_in-open, claim_due_schedules-Once}
use qdt_test.Store.Schedules.Leases.{
  IsOpen, is_due-IsOpen, claim_run, job-due, holds-lease, locked-by,
}
use qdt_test.Store.History.Row.{Spares, spared-Stays}
use qdt_test.Store.History.Once.{step-Once, run-Once}
use qdt_test.Store.History.{
  Call, creates, updates, publishes, unpublishes, schedules, cancels, claims, completes, fails,
  releases, step, run,
}

-- A call made while the lease of a worker on a schedule runs: a claim before it ends, or anything
-- else but the worker's own end of that job.
abbrev pub WhileLeased : Text → Text → ℕ → Call → Type 0
WhileLeased id worker expiry (claims w now end limit) = now < expiry
WhileLeased id worker expiry (completes job w now) = ¬ ((job.schedule_id ≡ id) × (w ≡ worker))
WhileLeased id worker expiry (fails s w reason now) = ¬ ((s ≡ id) × (w ≡ worker))
WhileLeased id worker expiry (releases w now) = w ≢ worker
WhileLeased id worker expiry _ = Unit {0}

abbrev pub AllWhileLeased : Text → Text → ℕ → List (Conn × Call) → Type 0
AllWhileLeased id worker expiry [] = Unit {0}
AllWhileLeased id worker expiry ((conn, c) ∷ cs) =
    WhileLeased id worker expiry c × AllWhileLeased id worker expiry cs

-- A row with a lease.
record Leased (worker : Text) (expiry : ℕ) (s : Schedule) : Type 0 where
  pub status : s.status ≡ claimed
  pub locked : s.locked_by ≡ some worker
  pub expires : s.lock_expires_at ≡ some expiry

module _ (worker : Text) (expiry : ℕ) (s : Schedule) (l : Leased worker expiry s) where
  not-IsOpen : (now : ℕ) → now < expiry → ¬ IsOpen now s
  not-IsOpen now early (inl (waiting, _)) = absurd (cc (waiting, l.status))
  not-IsOpen now early (inr (_, (e, ends, late))) =
      let same : e ≡ expiry = cc (ends, l.expires) in ground arith

  not_due : (now : ℕ) → now < expiry → is_due now s ≡ false
  not_due now early = elim (Bool-cases (is_due now s)) [
    | inl due ↦ absurd (not-IsOpen now early (is_due-IsOpen now s due))
    | inr rests ↦ rests
  ]

  not_held : (id w : Text) → ¬ ((id ≡ s.id) × (w ≡ worker)) → holds id w s ≡ false
  not_held id w other = elim (Bool-cases (holds id w s)) [
    | inl held ↦
        let (named, _, locked) = holds-lease id w s held in
        absurd (other (sym named, cc (locked, l.locked)))
    | inr free ↦ free
  ]

  not_held_by : (w : Text) → w ≢ worker → held_by w s ≡ false
  not_held_by w other = elim (Bool-cases (held_by w s)) [
    | inl held ↦
        let locked : s.locked_by ≡ some w = locked-by s.locked_by w (ground arith) in
        absurd (other (cc (locked, l.locked)))
    | inr free ↦ free
  ]

  leased-Spares :
      (c : Call) (db : Db)
      → Once db
      → Memᴰ s db.publish_schedules
      → WhileLeased s.id worker expiry c
      → Spares c db s
  leased-Spares (creates id slug f actor now) db x m h = tt
  leased-Spares (updates id expected f actor now) db x m h = tt
  leased-Spares (publishes id version_id actor now) db x m h = tt
  leased-Spares (unpublishes id actor now) db x m h = tt
  leased-Spares (schedules id content_id version_id run_at now) db x m h = tt
  leased-Spares (cancels id now) db x m h = ground (arith, l.status)
  leased-Spares (claims w now end limit) db x m h =
      elim (Bool-cases (id_in (due_rows now limit db.publish_schedules) s)) [
        | inl chosen ↦
            let due = id_in-open now limit db.publish_schedules x.ids s m chosen in
            absurd (cc (due, not_due now h))
        | inr left ↦ left
      ]
  leased-Spares (completes job w now) db x m h = not_held job.schedule_id w h
  leased-Spares (fails id w reason now) db x m h = not_held id w h
  leased-Spares (releases w now) db x m h = not_held_by w h

  -- The row stays while its lease runs.
  run-Leased :
      (cs : List (Conn × Call)) (db : Db)
      → Once db
      → Memᴰ s db.publish_schedules
      → AllWhileLeased s.id worker expiry cs
      → Memᴰ s (run cs db).publish_schedules
  unfolding run
  run-Leased [] db x m h = m
  run-Leased ((conn, c) ∷ cs) db x m (h, hs) =
      run-Leased cs (step conn c db) (step-Once conn c db x)
        (spared-Stays conn db s m c (leased-Spares c db x m h)) hs

-- The row that a claim leaves of a schedule that it took.
leased_row :
    (worker : Text) (now expiry limit : ℕ) (db after : Db) (jobs : List ClaimedJob) (s : Schedule)
    → claim_body worker now expiry limit db ≡ ok (jobs, after)
    → Memᴰ s db.publish_schedules
    → id_in (due_rows now limit db.publish_schedules) s ≡ true
    → Memᴰ (lease worker expiry now s) after.publish_schedules
leased_row worker now expiry limit db after jobs s run in_rows hit =
    let chosen = id_in (due_rows now limit db.publish_schedules) in
    let rows = (claim_body-frame worker now expiry limit db after jobs run).0 in
    rw rows (
      Memᴰ.cast (ground (arith, hit))
        (in-update chosen (lease worker expiry now) db.publish_schedules in_rows))

-- While a lease runs nobody else gets the job. After a claim, any store calls may follow, of any
-- worker and any request: the claims among them before the lease ends, and the holder itself not yet
-- done with the job. Then a claim before the lease ends does not return the job again. And each job
-- that the first claim returns is of a schedule that was pending and due, or had an expired lease. The
-- queue and the audit trail agree at the start, as in every database that a history builds.
pub claims_exclusive :
    (conn conn' : Conn) (worker worker' : Text) (now expiry limit now' expiry' limit' : ℕ)
    (cs : List (Conn × Call)) (db after last : Db) (jobs jobs' : List ClaimedJob)
    (j j' : ClaimedJob)
    → Once db
    → now' < expiry
    → claim_due_schedules conn worker now expiry limit db ≡ (ok jobs, after)
    → AllWhileLeased j.schedule_id worker expiry cs
    → claim_due_schedules conn' worker' now' expiry' limit' (run cs after) ≡ (ok jobs', last)
    → Memᴰ j jobs
    → Memᴰ j' jobs'
    → (j.schedule_id ≢ j'.schedule_id)
      × ((s : Schedule) × Memᴰ s db.publish_schedules × (j ≡ job_of s) × IsOpen now s)
claims_exclusive conn conn' worker worker' now expiry limit now' expiry' limit' cs db after last
      jobs jobs' j j' x early first between second m m' =
    let run_first = claim_run conn worker now expiry limit db after jobs first in
    let run_second = claim_run conn' worker' now' expiry' limit' (run cs after) last jobs' second in
    let (s, in_rows, hit, of_s, due) =
      job-due worker now expiry limit db after jobs j x.ids run_first m in
    let held = lease worker expiry now s in
    let l : Leased worker expiry held = record { status = refl; locked = refl; expires = refl } in
    let x' : Once after =
      rw first at (claim_due_schedules-Once conn worker now expiry limit db x) in
    let x'' : Once (run cs after) = run-Once cs after x' in
    let id : s.id ≡ j.schedule_id = sym (ap (λ (k : ClaimedJob). k.schedule_id) of_s) in
    let stays : Memᴰ held (run cs after).publish_schedules =
      run-Leased worker expiry held l cs after x'
        (leased_row worker now expiry limit db after jobs s run_first in_rows hit)
        (rw id between) in
    (
      (λ same.
          let (t, in_after, _, of_t, due_again) =
            job-due worker' now' expiry' limit' (run cs after) last jobs' j' x''.ids run_second
              m' in
          let one : t ≡ held =
            Apart-eq SameId (run cs after).publish_schedules x''.ids (λ a b c. sym c) in_after stays
              (cc (same, of_s, of_t)) in
          absurd (cc (not_due worker expiry held l now' early, due_again, one))),
      (s, in_rows, of_s, is_due-IsOpen now s due),
    )
