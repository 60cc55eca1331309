-- ===== src/Jobs/Leases.antt =====
-- The leases of a job: each claim has a generation of its own, and takes the job from whoever had it.
use mathlib.Core.Option.{some-injective}
use sat_sa_with_pqc.Base.{
  if_true, ℕ, ◌≤◌, ◌<◌, String, ◌==◌, eq_refl, ◌≡◌, inl, inr, refl, sym, ◌∙◌, subst, ap, Bool, true,
  Option, none, some, List, [], ◌∷◌, ◌++◌, ok, >>=-eq-ok, same_value, or_raise, Bool-cases,
  Option-cases, arith,
}
use sat_sa_with_pqc.Base.Rows.{update_row, update, first, All-first, first-update, first-append}
use sat_sa_with_pqc.Json.{Json}
use sat_sa_with_pqc.Evidence.Codec.{Codec}
use sat_sa_with_pqc.Jobs.Tables.{JobStatus, is_waiting, is_running, is_held, Job, JobDb}
use sat_sa_with_pqc.Jobs.Queue.{
  job_not_found, sweep, is_exhausted, exhaust, candidate, has_id, claimed_status, leased, give,
  claim, owned, finish, finished, same_generation, retry, retried,
}
use sat_sa_with_pqc.Jobs.Requests.{
  Request, enqueue, new_job, cancel, cancel_rows, in_organization, cancelled_now, asked_to_cancel,
}
use sat_sa_with_pqc.Jobs.Invariant.{
  JobOk, IsFound, RowsOk, RowsOk-sweep, RowsOk-claim, same_row, All-candidate, enqueue_cases,
}

module _ (c : Codec) where
  claimed-held : (s : JobStatus) → is_held (claimed_status c s) ≡ true
  claimed-held s = ground arith

  abbrev pub generation_of : Option (Job c) → ℕ
  generation_of none = 0
  generation_of (some j) = j.lease_generation

  -- The generation of the job with the id.
  abbrev pub generation_in : String → List (Job c) → ℕ
  generation_in i jobs = generation_of (first (has_id c i) jobs)

  abbrev pub Grows : List (Job c) → List (Job c) → Type 0
  Grows jobs after = (i : String) → generation_in i jobs ≤ generation_in i after

  pub keeps_id :
      (p : Job c → Bool) (f : Job c → Job c) (i : String)
      → ((j : Job c) → (f j).id ≡ j.id)
      → (j : Job c) → has_id c i (update_row p f j) ≡ has_id c i j
  keeps_id p f i ids j = elim (Bool-cases (p j)) [
    | inl hit ↦ rw hit (ap (λ x. x == i) (ids j))
    | inr miss ↦ rw miss refl
  ]

  Grows-update :
      (p : Job c → Bool) (f : Job c → Job c) (jobs : List (Job c))
      → ((j : Job c) → (f j).id ≡ j.id)
      → ((j : Job c) → p j ≡ true → IsFound c jobs j → j.lease_generation ≤ (f j).lease_generation)
      → RowsOk c jobs
      → Grows jobs (update p f jobs)
  Grows-update p f jobs ids grows k i = elim (Option-cases (first (has_id c i) jobs)) [
    | inl nobody ↦ rw nobody (omega arith)
    | inr (j, found) ↦
        let after = first-update (has_id c i) p f jobs j (keeps_id p f i ids) found in
        let own = All-first (IsFound c jobs) (has_id c i) jobs j k.found found in
        let more : j.lease_generation ≤ (update_row p f j).lease_generation =
          elim (Bool-cases (p j)) [
            | inl hit ↦ rw hit (grows j hit own)
            | inr miss ↦ rw miss (omega arith)
          ] in
        omega (arith, ap generation_of found, ap generation_of after, more)
  ]

  Grows-trans : (xs ys zs : List (Job c)) → Grows xs ys → Grows ys zs → Grows xs zs
  Grows-trans xs ys zs h k i = omega (arith, h i, k i)

  pub Grows-sweep :
      (now : ℕ) (db : JobDb c) → RowsOk c db.jobs → Grows db.jobs (sweep c now db).jobs
  unfolding sweep
  Grows-sweep now db k =
      Grows-update (is_exhausted c now) (exhaust c now) db.jobs (λ j. refl) (λ j hit f. omega arith)
        k

  pub Grows-finish :
      (now : ℕ) (job : Job c) (status : JobStatus) (result : Option Json) (error : String)
      (db after : JobDb c)
      → finish c now job status result error db ≡ ok after
      → RowsOk c db.jobs
      → Grows db.jobs after.jobs
  unfolding finish
  Grows-finish now job status result error db after h k =
      let (_, _, e) = >>=-eq-ok (owned c job db) _ h in
      subst (λ (d : JobDb c). Grows db.jobs d.jobs) (same_value _ refl e)
        (Grows-update (same_generation c job) (finished c now status result error) db.jobs
          (λ j. refl) (λ j hit f. omega arith) k)

  pub Grows-retry :
      (now : ℕ) (job : Job c) (error : String) (db : JobDb c)
      → RowsOk c db.jobs
      → Grows db.jobs (retry c now job error db).1.jobs
  unfolding retry
  Grows-retry now job error db k =
      Grows-update (same_generation c job) (retried c now job error) db.jobs (λ j. refl)
        (λ j hit f. omega arith) k

  Grows-cancel_rows :
      (now : ℕ) (job_id : String) (status : JobStatus) (jobs : List (Job c))
      → RowsOk c jobs
      → Grows jobs (cancel_rows c now job_id status jobs)
  Grows-cancel_rows now job_id status jobs k = elim (Bool-cases (is_waiting status)) [
    | inl waits ↦ rw waits (
        Grows-update (has_id c job_id) (cancelled_now c now) jobs (λ j. refl)
          (λ j hit f. omega arith) k)
    | inr other ↦ elim (Bool-cases (is_running status)) [
      | inl runs ↦
          rw (other, runs)
            (Grows-update (has_id c job_id) (asked_to_cancel c now) jobs (λ j. refl)
              (λ j hit f. omega arith) k)
      | inr idle ↦ rw (other, idle) (λ i. omega arith)
    ]
  ]

  pub Grows-cancel :
      (now : ℕ) (org job_id : String) (db : JobDb c) (r : Option (Job c) × JobDb c)
      → cancel c now org job_id db ≡ ok r
      → RowsOk c db.jobs
      → Grows db.jobs r.1.jobs
  unfolding cancel
  Grows-cancel now org job_id db r h k =
      let (job, _, e) =
        >>=-eq-ok (or_raise (first (in_organization c org job_id) db.jobs) job_not_found) _ h in
      subst (λ (p : Option (Job c) × JobDb c). Grows db.jobs p.1.jobs) (same_value _ refl e)
        (Grows-cancel_rows now job_id job.status db.jobs k)

  pub Grows-append : (jobs : List (Job c)) (j : Job c) → Grows jobs (jobs ++ j ∷ [])
  Grows-append jobs j i = elim (Option-cases (first (has_id c i) jobs)) [
    | inl nobody ↦ rw nobody (omega arith)
    | inr (x, found) ↦ omega (
      arith,
      ap generation_of found,
      ap generation_of (first-append (has_id c i) jobs (j ∷ []) x found),
    )
  ]

  -- A claim that finds a job gives it a higher generation than it had.
  pub record IsTaken (before after : JobDb c) (job : Job c) : Type 0 where
    pub rows : RowsOk c after.jobs
    pub grows : Grows before.jobs after.jobs
    pub found : IsFound c after.jobs job
    pub well_formed : JobOk c job
    pub higher : generation_in job.id before.jobs < job.lease_generation
    pub held : is_held job.status ≡ true

  module _ (now lease_seconds : ℕ) (worker_id : String) (db : JobDb c) where
    abbrev taken : Job c → Job c
    taken chosen = leased c now lease_seconds worker_id chosen chosen

    abbrev swept : JobDb c
    swept = sweep c now db

    abbrev after_giving : Job c → JobDb c
    after_giving chosen = record swept {
      jobs = update (has_id c chosen.id) (leased c now lease_seconds worker_id chosen) swept.jobs;
    }

    found_after :
        (chosen : Job c)
        → IsFound c swept.jobs chosen
        → first (has_id c chosen.id) (after_giving chosen).jobs ≡ some (taken chosen)
    found_after chosen found =
        let given = leased c now lease_seconds worker_id chosen in
        first-update (has_id c chosen.id) (has_id c chosen.id) given swept.jobs chosen
          (keeps_id (has_id c chosen.id) given chosen.id (λ j. refl)) found
        ∙ ap some (sym (if_true (taken chosen) chosen (eq_refl chosen.id)))

    IsTaken-give :
        (chosen : Job c)
        → IsFound c swept.jobs chosen
        → RowsOk c db.jobs
        → RowsOk c (after_giving chosen).jobs
        → IsTaken db (after_giving chosen) (taken chosen)
    IsTaken-give chosen found k rows =
        let swept_ok = RowsOk-sweep c now db k in
        let swept_grows = Grows-sweep now db k in
        let grows : Grows swept.jobs (after_giving chosen).jobs =
          Grows-update (has_id c chosen.id) (leased c now lease_seconds worker_id chosen) swept.jobs
            (λ j. refl)
            (λ j hit f.
              let same : chosen ≡ j = same_row c swept.jobs chosen j found f hit in
              omega (arith, ap (λ (x : Job c). x.lease_generation) same))
            swept_ok in
        record {
          rows = rows;
          grows = Grows-trans db.jobs swept.jobs (after_giving chosen).jobs swept_grows grows;
          found = found_after chosen found;
          well_formed =
              All-first (JobOk c) (has_id c chosen.id) _ (taken chosen) rows.each
                (found_after chosen found);
          higher = omega (arith, swept_grows chosen.id, ap generation_of found);
          held = claimed-held chosen.status;
        }

    pub claim-IsTaken :
        (after : JobDb c) (job : Job c)
        → claim c now lease_seconds worker_id db ≡ (some job, after)
        → RowsOk c db.jobs
        → IsTaken db after job
    unfolding claim
    claim-IsTaken after job h k = elim (Option-cases (candidate c now swept.jobs)) [
      | inl nothing ↦
          let none_given : (none, swept) ≡ (some job, after) =
            ap (give c now lease_seconds worker_id swept) (sym nothing) ∙ h in
          cc none_given
      | inr (chosen, e) ↦
          let found =
            All-candidate c (IsFound c swept.jobs) now swept.jobs chosen
              (RowsOk-sweep c now db k).found e in
          let given : (first (has_id c chosen.id) (after_giving chosen).jobs, after_giving chosen)
              ≡ (some job, after) =
            ap (give c now lease_seconds worker_id swept) (sym e) ∙ h in
          let same_job : taken chosen ≡ job =
            some-injective _ _
              (sym (found_after chosen found) ∙ ap (λ (p : Option (Job c) × JobDb c). p.0) given) in
          let same_db : after_giving chosen ≡ after =
            ap (λ (p : Option (Job c) × JobDb c). p.1) given in
          let rows : RowsOk c (after_giving chosen).jobs =
            subst (λ (p : Option (Job c) × JobDb c). RowsOk c p.1.jobs) (h ∙ sym given)
              (RowsOk-claim c now lease_seconds worker_id db k) in
          subst (IsTaken db after) same_job
            (subst (λ d. IsTaken db d (taken chosen)) same_db (IsTaken-give chosen found k rows))
    ]

  -- A claim that finds nothing has swept, and there is no candidate.
  pub claim-none_sweeps :
      (now lease_seconds : ℕ) (worker_id : String) (db after : JobDb c)
      → claim c now lease_seconds worker_id db ≡ (none, after)
      → RowsOk c db.jobs
      → (candidate c now (sweep c now db).jobs ≡ none) × (sweep c now db ≡ after)
  unfolding claim
  claim-none_sweeps now lease_seconds worker_id db after h k =
      let before = sweep c now db in
      elim (Option-cases (candidate c now before.jobs)) [
        | inl nothing ↦
            let same : (none, before) ≡ (none, after) =
              ap (give c now lease_seconds worker_id before) (sym nothing) ∙ h in
            (nothing, ap (λ (p : Option (Job c) × JobDb c). p.1) same)
        | inr (chosen, e) ↦
            let found =
              All-candidate c (IsFound c before.jobs) now before.jobs chosen
                (RowsOk-sweep c now db k).found e in
            let giving = after_giving now lease_seconds worker_id db chosen in
            let given : (first (has_id c chosen.id) giving.jobs, giving) ≡ (none, after) =
              ap (give c now lease_seconds worker_id before) (sym e) ∙ h in
            let no : some (taken now lease_seconds worker_id db chosen) ≡ none =
              sym (found_after now lease_seconds worker_id db chosen found)
              ∙ ap (λ (p : Option (Job c) × JobDb c). p.0) given in
            cc no
      ]

  pub Grows-claim-none :
      (now lease_seconds : ℕ) (worker_id : String) (db after : JobDb c)
      → claim c now lease_seconds worker_id db ≡ (none, after)
      → RowsOk c db.jobs
      → Grows db.jobs after.jobs
  Grows-claim-none now lease_seconds worker_id db after h k =
      subst (λ (d : JobDb c). Grows db.jobs d.jobs)
        (claim-none_sweeps now lease_seconds worker_id db after h k).1 (Grows-sweep now db k)

  pub Grows-enqueue :
      (sha3_text : String → String) (now : ℕ) (r : Request) (db : JobDb c)
      (s : (Option (Job c) × Bool) × JobDb c)
      → enqueue c sha3_text now r db ≡ ok s
      → Grows db.jobs s.1.jobs
  Grows-enqueue sha3_text now r db s h = elim (enqueue_cases c sha3_text now r db s h) [
    | inl same ↦ subst (λ (d : JobDb c). Grows db.jobs d.jobs) (sym same) (λ i. omega arith)
    | inr (same, fresh) ↦
        subst (λ (d : JobDb c). Grows db.jobs d.jobs) (sym same)
          (Grows-append db.jobs (new_job c sha3_text now r))
  ]
