-- ===== src/Scheduler/Worker/Keeps.antt =====
-- The worker's polls over the tables of the store, among other users of the database.
use qdt_test.Common.{
  ℕ, suc, ◌+◌, Text, text_eq_refl, ◌≡◌, refl, ◌∙◌, subst, true, List, [], ◌∷◌, Result, ok, err,
  arith, select, in-any, any-update, select-in,
}
use mathlib.Core.List.{Memᴰ}
use mathlib.Core.List.Memᴰ
use qdt_test.Store.Model.{Db, Error, Schedule}
use qdt_test.Store.Tx.{Conn}
use qdt_test.Store.Schedules.{ClaimedJob, job_of, lease, due_rows, id_in, claim_due_schedules}
use qdt_test.Store.Schedules.Once.{claim_body-frame}
use qdt_test.Store.Schedules.Leases.{claim_run, claim_body-jobs}
use qdt_test.Store.History.{step, completes, fails, claims, releases}
use qdt_test.Store.History.Integrity.{is_job_of}
use qdt_test.Store.History.Honest.{Steady, Honest, Honest-Steady}
use qdt_test.Scheduler.Worker.Jobs.{record_failure-keeps}
use qdt_test.Scheduler.Worker.{World, Worker, to_millis, shutdown}
use qdt_test.Scheduler.Worker.Among.{
  execute_among, execute_all_among, run_claimed_among, tick_among,
}

own_job : (s : Schedule) → is_job_of (job_of s) s ≡ true
own_job s = rw (text_eq_refl s.id, text_eq_refl s.content_id) (ground arith)

-- A job that a claim returns is one of a schedule of the table.
claimed-Honest :
    (conn : Conn) (worker : Text) (now expiry limit : ℕ) (db after : Db) (jobs : List ClaimedJob)
    → claim_due_schedules conn worker now expiry limit db ≡ (ok jobs, after)
    → (j : ClaimedJob) → Memᴰ j jobs
    → Honest j after
claimed-Honest conn worker now expiry limit db after jobs won j m =
    let run = claim_run conn worker now expiry limit db after jobs won in
    let chosen = id_in (due_rows now limit db.publish_schedules) in
    let rows = (claim_body-frame worker now expiry limit db after jobs run).0 in
    let (s, k, e) =
      Memᴰ.of_map job_of (select chosen db.publish_schedules)
        (rw (claim_body-jobs worker now expiry limit db after jobs run) at m) in
    let (in_rows, _) = select-in s chosen db.publish_schedules k in
    let own : Honest (job_of s) db =
      in-any s (is_job_of (job_of s)) db.publish_schedules in_rows (own_job s) in
    let before : Honest j db = subst (λ i. Honest i db) e own in
    rw rows (
      any-update (is_job_of j) chosen (lease worker expiry now) db.publish_schedules (λ r. refl)
      ∙ before)

-- The others keep what every store call keeps.
abbrev pub Calm : (ℕ → Db → Db) → Type 1
Calm others = (P : Db → Type 0) → Steady P → (k : ℕ) (db : Db) → P db → P (others k db)

module _ (others : ℕ → Db → Db) (calm : Calm others) (w : World) where
  execute_among-keeps :
      (P : Db → Type 0) (steady : Steady P) (n : ℕ) (worker : Worker) (job : ClaimedJob) (db : Db)
      → Honest job db
      → P db
      → P (execute_among others w n worker job db)
  unfolding execute_among step
  execute_among-keeps P steady n worker job db h v =
      let now = to_millis (w.now n) in
      let after = step (w.conn (n + n)) (completes job worker.id now) db in
      record_failure-keeps w n worker job P now (_, others (suc (n + n)) after)
        (calm P steady (suc (n + n)) after
          (steady (w.conn (n + n)) (completes job worker.id now) db h v))
        (λ reason later x.
          steady (w.conn (suc (n + n))) (fails job.schedule_id worker.id reason now) later tt x)

  execute_all_among-keeps :
      (P : Db → Type 0) (steady : Steady P) (n : ℕ) (worker : Worker) (jobs : List ClaimedJob)
      (db : Db)
      → ((j : ClaimedJob) → Memᴰ j jobs → Honest j db)
      → P db
      → P (execute_all_among others w n worker jobs db)
  unfolding execute_all_among
  execute_all_among-keeps P steady n worker [] db h v = v
  execute_all_among-keeps P steady n worker (job ∷ jobs) db h v =
      let before = others (n + n) db in
      let honest : (j : ClaimedJob) → Memᴰ j (job ∷ jobs) → Honest j before =
        λ j m. calm (Honest j) (Honest-Steady j) (n + n) db (h j m) in
      let own : Honest job before = honest job (Memᴰ.head refl) in
      execute_all_among-keeps P steady (suc n) worker jobs
        (execute_among others w n worker job before)
        (λ j m.
          execute_among-keeps (Honest j) (Honest-Steady j) n worker job before own
            (honest j (Memᴰ.tail m)))
        (execute_among-keeps P steady n worker job before own (calm P steady (n + n) db v))

  run_claimed_among-keeps :
      (P : Db → Type 0) (steady : Steady P) (n : ℕ) (worker : Worker)
      (r : Result Error (List ClaimedJob) × Db)
      → ((jobs : List ClaimedJob)
          → r ≡ (ok jobs, r.1)
          → (j : ClaimedJob) → Memᴰ j jobs
          → Honest j r.1)
      → P r.1
      → P (run_claimed_among others w n worker r)
  unfolding run_claimed_among
  run_claimed_among-keeps P steady n worker (err e, db) h v = v
  run_claimed_among-keeps P steady n worker (ok jobs, db) h v =
      execute_all_among-keeps P steady n worker jobs db (h jobs refl) v

  pub tick_among-keeps :
      (P : Db → Type 0) (steady : Steady P) (n : ℕ) (worker : Worker) (db : Db)
      → P db
      → P (tick_among others w n worker db)
  unfolding tick_among step
  tick_among-keeps P steady n worker db v =
      let now = to_millis (w.now n) in
      let expiry = to_millis (w.now (n + 1) + worker.lease) in
      let r = claim_due_schedules (w.conn n) worker.id now expiry worker.batch db in
      run_claimed_among-keeps P steady (n + 2) worker r
        (λ jobs e. claimed-Honest (w.conn n) worker.id now expiry worker.batch db r.1 jobs e)
        (steady (w.conn n) (claims worker.id now expiry worker.batch) db tt v)

pub shutdown-keeps :
    (P : Db → Type 0) (steady : Steady P) (w : World) (n : ℕ) (worker : Worker) (db : Db)
    → P db
    → P (shutdown w n worker db)
unfolding shutdown step
shutdown-keeps P steady w n worker db v =
    steady (w.conn n) (releases worker.id (to_millis (w.now n))) db tt v
