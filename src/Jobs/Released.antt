-- ===== src/Jobs/Released.antt =====
-- A worker does not keep a job: after a run the job is over, or waits to be tried again.
use mathlib.Core.Option.{some-injective}
use sat_sa_with_pqc.Base.{
  if_true, if_false, ℕ, String, ◌==◌, eq_refl, ◌≡◌, ◌≢◌, ◌⊎◌, inl, inr, refl, sym, ◌∙◌, subst, ap,
  Bool, true, false, Option, none, some, List, [], ◌∷◌, Result, ok, err, Bool-cases, arith,
  if◌then◌else◌, ◌>>=◌,
}
use sat_sa_with_pqc.Base.Rows.{update, first, first-update}
use sat_sa_with_pqc.Json.{Json}
use sat_sa_with_pqc.Evidence.Codec.{Codec}
use sat_sa_with_pqc.Jobs.Tables.{
  JobStatus, completed, failed, cancelled, retry_wait, is_held, is_failed, is_cancel_requested, Job,
  JobDb,
}
use sat_sa_with_pqc.Jobs.Queue.{
  JobFault, job_cancelled, has_id, claim, same_lease, owned, boundary, finish, finished,
  same_generation, retry, retried, retry_status, attempts_used,
}
use sat_sa_with_pqc.Jobs.Steps.{is_final}
use sat_sa_with_pqc.Jobs.Invariant.{IsFound, RowsOk}
use sat_sa_with_pqc.Jobs.Leases.{keeps_id, claim-IsTaken}
use sat_sa_with_pqc.Jobs.Worker.{
  closed, complete, completed_with, after_boundary, status_text, retry_again, Outcome, returned,
  stopped, lost, invalid, transient, on_cancel, on_failure, attempt, after_handler, settle,
  run_once,
}

first-sharper :
    {A : Type 0} (p q : A → Bool) (xs : List A) (x : A)
    → ((y : A) → p y ≡ false → q y ≡ false)
    → q x ≡ true
    → first p xs ≡ some x
    → first q xs ≡ some x
first-sharper p q [] x less its h = cc h
first-sharper p q (y ∷ ys) x less its h = elim (Bool-cases (p y)) [
  | inl hit ↦
      let same : some y ≡ some x = if_true (some y) (first p ys) hit ∙ h in
      let it : q y ≡ true = subst (λ z. q z ≡ true) (sym (some-injective y x same)) its in
      sym (if_true (some y) (first q ys) it) ∙ same
  | inr miss ↦
      let later : first p ys ≡ some x = if_false (some y) (first p ys) miss ∙ h in
      sym (if_false (some y) (first q ys) (less y miss)) ∙ first-sharper p q ys x less its later
]

module _ (c : Codec) where
  -- The row of the job is released.
  abbrev pub IsReleased : Job c → JobDb c → Type 0
  IsReleased job db =
      (row : Job c) × (first (has_id c job.id) db.jobs ≡ some row)
      × ((is_final row.status ≡ true) ⊎ (row.status ≡ retry_wait))

  abbrev pub IsOver : Job c → Result JobFault (Option String) × JobDb c → Type 0
  IsOver job result = (s : String) × (result.0 ≡ ok (some s)) × IsReleased job result.1

  module _ (job : Job c) (held : is_held job.status ≡ true) where
    owned_claimed : (db : JobDb c) → IsFound c db.jobs job → owned c job db ≡ ok job
    unfolding owned
    owned_claimed db found =
        let own : first (same_lease c job) db.jobs ≡ some job =
          first-sharper (has_id c job.id) (same_lease c job) db.jobs job (λ j miss. rw miss refl)
            (rw (eq_refl job.id, eq_refl job.lease_owner) (ground arith)) found in
        rw (own, held) refl

    own_generation : same_generation c job job ≡ true
    own_generation = rw (eq_refl job.id) (ground arith)

    -- An update of the job's own row is what its id finds then.
    found_after :
        (f : Job c → Job c) (jobs : List (Job c))
        → ((j : Job c) → (f j).id ≡ j.id)
        → IsFound c jobs job
        → first (has_id c job.id) (update (same_generation c job) f jobs) ≡ some (f job)
    found_after f jobs ids found =
        first-update (has_id c job.id) (same_generation c job) f jobs job
          (keeps_id c (same_generation c job) f job.id ids) found
        ∙ ap some (sym (if_true (f job) job own_generation))

    finish_claimed :
        (later : ℕ) (status : JobStatus) (result : Option Json) (error : String) (db : JobDb c)
        → IsFound c db.jobs job
        → is_final status ≡ true
        → (after : JobDb c) × (finish c later job status result error db ≡ ok after)
          × IsReleased job after
    unfolding finish
    finish_claimed later status result error db found final =
        let f = finished c later status result error in
        (
          record db { jobs = update (same_generation c job) f db.jobs },
          rw (owned_claimed db found) refl,
          (f job, found_after f db.jobs (λ j. refl) found, inl final),
        )

    closes :
        (later : ℕ) (status : JobStatus) (text : String) (result : Option Json) (error : String)
        (db : JobDb c)
        → IsFound c db.jobs job
        → is_final status ≡ true
        → IsOver job (closed c text db (finish c later job status result error db))
    closes later status text result error db found final =
        let (after, e, released) = finish_claimed later status result error db found final in
        rw e (text, refl, released)

    on_cancel-jobs : (later : ℕ) (db : JobDb c) → (on_cancel c later job db).jobs ≡ db.jobs
    unfolding on_cancel
    on_cancel-jobs later db = elim (Bool-cases (job.kind == "train")) [
      | inl train ↦ rw train refl
      | inr other ↦ elim (Bool-cases (job.kind == "validate_dataset")) [
        | inl v ↦ rw (other, v) refl
        | inr n ↦ rw (other, n) refl
      ]
    ]

    on_failure-jobs :
        (later : ℕ) (error : String) (db : JobDb c)
        → (on_failure c later job error db).jobs ≡ db.jobs
    unfolding on_failure
    on_failure-jobs later error db = elim (Bool-cases (job.kind == "train")) [
      | inl train ↦ rw train refl
      | inr other ↦ elim (Bool-cases (job.kind == "validate_dataset")) [
        | inl v ↦ rw (other, v) refl
        | inr n ↦ rw (other, n) refl
      ]
    ]

    retries :
        (later : ℕ) (error : String) (db : JobDb c)
        → IsFound c db.jobs job
        → IsOver job (retry_again c later job error (retry c later job error db))
    unfolding retry
    retries later error db found =
        let d : JobDb c = record db {
          jobs = update (same_generation c job) (retried c later job error) db.jobs;
        } in
        let row : first (has_id c job.id) d.jobs ≡ some (retried c later job error job) =
          found_after (retried c later job error) db.jobs (λ j. refl) found in
        (
          status_text c (retry_status c job),
          refl,
          (
            retried c later job error job,
            elim (Bool-cases (is_failed (retry_status c job))) [
              | inl over ↦ rw over (rw (on_failure-jobs later error d) row)
              | inr again ↦ rw again row
            ],
            elim (Bool-cases (attempts_used c job)) [
              | inl used ↦ rw used (inl refl)
              | inr left ↦ rw left (inr refl)
            ],
          ),
        )

    settles :
        (later : ℕ) (o : Outcome) (db : JobDb c)
        → IsFound c db.jobs job
        → o ≢ lost
        → ((v : Json) → o ≢ returned v)
        → IsOver job (settle c later job (o, db))
    settles later (returned v) db found keeps other = elim (other v refl) [ ]
    settles later stopped db found keeps other =
        closes later cancelled "cancelled" none "cancelled on request" (on_cancel c later job db)
          (rw (on_cancel-jobs later db) found) refl
    settles later lost db found keeps other = elim (keeps refl) [ ]
    settles later (invalid error) db found keeps other =
        closes later failed "failed" none error (on_failure c later job error db)
          (rw (on_failure-jobs later error db) found) refl
    settles later (transient error) db found keeps other = retries later error db found

    -- The lease is still held, so a boundary only stops a job that is asked to stop.
    boundary_claimed :
        (db : JobDb c)
        → IsFound c db.jobs job
        → boundary c job db
          ≡ (if is_cancel_requested job.status then err (job_cancelled job.id) else ok tt)
    unfolding boundary
    boundary_claimed db found = elim (Bool-cases (is_cancel_requested job.status)) [
      | inl asked ↦ rw (owned_claimed db found, asked) refl
      | inr free ↦ rw (owned_claimed db found, free) refl
    ]

    completes :
        (later : ℕ) (v : Json) (db : JobDb c)
        → IsFound c db.jobs job
        → is_cancel_requested job.status ≡ false
        → IsOver job (settle c later job (complete c later job v db))
    completes later v db found free =
        let (after, e, released) = finish_claimed later completed (some v) "" db found refl in
        let passes : boundary c job db ≡ ok tt =
          boundary_claimed db found ∙ sym (if_false (err (job_cancelled job.id)) (ok tt) free) in
        let finishes_it : (boundary c job db >>= λ u. finish c later job completed (some v) "" db)
            ≡ ok after =
          rw (passes, e) refl in
        subst (λ r. IsOver job (settle c later job (completed_with c v db r))) (sym finishes_it)
          ("completed", refl, released)

    handled :
        (later : ℕ) (db : JobDb c) (r : Outcome × JobDb c)
        → IsFound c db.jobs job
        → is_cancel_requested job.status ≡ false
        → r.1.jobs ≡ db.jobs
        → r.0 ≢ lost
        → IsOver job (settle c later job (after_handler c later job r))
    handled later db (returned v, d) found free same keeps =
        completes later v d (rw same found) free
    handled later db (stopped, d) found free same keeps =
        settles later stopped d (rw same found) keeps (λ v h. cc h)
    handled later db (lost, d) found free same keeps = elim (keeps refl) [ ]
    handled later db (invalid error, d) found free same keeps =
        settles later (invalid error) d (rw same found) keeps (λ v h. cc h)
    handled later db (transient error, d) found free same keeps =
        settles later (transient error) d (rw same found) keeps (λ v h. cc h)

    attempted :
        (handler : Job c → JobDb c → Outcome × JobDb c) (later : ℕ) (db : JobDb c)
        → IsFound c db.jobs job
        → (handler job db).1.jobs ≡ db.jobs
        → (handler job db).0 ≢ lost
        → IsOver job (settle c later job (attempt c handler later job db))
    unfolding attempt
    attempted handler later db found same keeps =
        elim (Bool-cases (is_cancel_requested job.status)) [
          | inl asked ↦
              let stops : boundary c job db ≡ err (job_cancelled job.id) =
                boundary_claimed db found
                ∙ sym (if_true (err (job_cancelled job.id)) (ok tt) asked) in
              subst (λ r. IsOver job (settle c later job (after_boundary c handler later job db r)))
                (sym stops) (settles later stopped db found (λ h. cc h) (λ v h. cc h))
          | inr free ↦
              let passes : boundary c job db ≡ ok tt =
                boundary_claimed db found
                ∙ sym (if_false (err (job_cancelled job.id)) (ok tt) free) in
              subst (λ r. IsOver job (settle c later job (after_boundary c handler later job db r)))
                (sym passes) (handled later db (handler job db) found free same keeps)
        ]

  -- A worker that claims a job, and that no other worker disturbs, does not leave it held, whatever its handler
  -- does but change the jobs or report a lost lease: the run gives a status, and then the job is over or
  -- waits to be tried again.
  pub run_once_releases :
      (handler : Job c → JobDb c → Outcome × JobDb c) (began later lease_seconds : ℕ)
      (worker_id : String) (db given : JobDb c) (job : Job c)
      → RowsOk c db.jobs
      → claim c began lease_seconds worker_id db ≡ (some job, given)
      → (handler job given).1.jobs ≡ given.jobs
      → (handler job given).0 ≢ lost
      → IsOver job (run_once c handler began later lease_seconds worker_id db)
  unfolding run_once
  run_once_releases handler began later lease_seconds worker_id db given job k h same keeps =
      let t = claim-IsTaken c began lease_seconds worker_id db given job h k in
      rw h (attempted job t.held handler later given t.found same keeps)
