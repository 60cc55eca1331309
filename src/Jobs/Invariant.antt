-- ===== src/Jobs/Invariant.antt =====
-- What holds of every row of the queue, whatever its users and workers do.
use mathlib.Core.Option.{some-injective}
use sat_sa_with_pqc.Base.{
  contains, if_true, if_false, ℕ, ◌≤◌, ◌<◌, String, ◌==◌, eq_iff, eq_refl, ◌≡◌, ◌≢◌, ◌⊎◌, inl, inr,
  refl, sym, ◌∙◌, subst, ap, Bool, true, false, not, Option, none, some, List, [], ◌∷◌, ◌++◌,
  Result, ok, err, >>=-eq-ok, same_value, raise_if, or_raise, Bool-cases, Option-cases, All,
  All-map, All-both, All-append, arith,
}
use sat_sa_with_pqc.Base.Rows.{
  update_row, update, first, any, All-updated, All-first, first-matches, first-update, first-append,
  first-last,
}
use sat_sa_with_pqc.Json.{Json}
use sat_sa_with_pqc.Evidence.Codec.{Codec}
use sat_sa_with_pqc.Jobs.Tables.{JobStatus, is_waiting, is_held, is_running, Job, JobDb}
use sat_sa_with_pqc.Jobs.Queue.{
  JobFault, job_not_found, unknown_kind, duplicate_id, not_later, is_exhausted, exhaust, sweep,
  is_claimable, earlier, candidate, has_id, leased, claim, owned, finish, finished, same_generation,
  retry, retried,
}
use sat_sa_with_pqc.Jobs.Requests.{
  Request, new_job, enqueue, cancel, cancelled_now, asked_to_cancel, cancel_rows, in_organization,
  job_id_of, has_key, job_kinds, check_same, reuse_or_insert,
}
use sat_sa_with_pqc.Jobs.Steps.{is_final}

module _ (c : Codec) where
  -- A row counts its claims by its generation, at most three; a waiting job has a claim left, a held
  -- one has a lease that expires, and exactly the final ones have a time of completion.
  pub record JobOk (j : Job c) : Type 0 where
    pub generation : j.lease_generation ≡ j.attempt_count
    pub three : j.max_attempts ≡ 3
    pub bounded : j.attempt_count ≤ 3
    pub waiting : is_waiting j.status ≡ true → j.attempt_count < 3
    pub held : is_held j.status ≡ true → j.lease_expires_at ≢ none
    pub final : is_final j.status ≡ true → j.completed_at ≢ none
    pub open_ended : is_final j.status ≡ false → j.completed_at ≡ none

  -- The row is the one that its id finds.
  abbrev pub IsFound : List (Job c) → Job c → Type 0
  IsFound jobs j = first (has_id c j.id) jobs ≡ some j

  pub record RowsOk (jobs : List (Job c)) : Type 0 where
    pub each : All JobOk jobs
    pub found : All (IsFound jobs) jobs

  -- An update that keeps the ids keeps the rows in order.
  pub RowsOk-update :
      (p : Job c → Bool) (f : Job c → Job c) (jobs : List (Job c))
      → ((j : Job c) → (f j).id ≡ j.id)
      → ((j : Job c) → p j ≡ true → JobOk j → IsFound jobs j → JobOk (f j))
      → RowsOk jobs
      → RowsOk (update p f jobs)
  RowsOk-update p f jobs ids keeps h =
      let same : (j : Job c) → (update_row p f j).id ≡ j.id =
        λ j. elim (Bool-cases (p j)) [ inl hit ↦ rw hit (ids j) | inr miss ↦ rw miss refl ] in
      let same_query : (i : String) (j : Job c) → has_id c i (update_row p f j) ≡ has_id c i j =
        λ i j. ap (λ x. x == i) (same j) in
      record {
        each =
            All-updated (λ j. JobOk j × IsFound jobs j) JobOk p f jobs
              (λ j h. elim (Bool-cases (p j)) [
                | inl hit ↦ rw hit (keeps j hit h.0 h.1)
                | inr miss ↦ rw miss h.0
              ])
              (All-both JobOk (IsFound jobs) jobs h.each h.found);
        found =
            All-updated (IsFound jobs) (IsFound (update p f jobs)) p f jobs
              (λ j found.
                subst (λ i. first (has_id c i) (update p f jobs) ≡ some (update_row p f j))
                  (sym (same j)) (first-update (has_id c j.id) p f jobs j (same_query j.id) found))
              h.found;
      }

  JobOk-exhaust : (now : ℕ) (j : Job c) → JobOk j → JobOk (exhaust c now j)
  JobOk-exhaust now j h = ground (arith, h)

  JobOk-finished :
      (now : ℕ) (status : JobStatus) (result : Option Json) (error : String) (j : Job c)
      → is_final status ≡ true
      → JobOk j
      → JobOk (finished c now status result error j)
  JobOk-finished now status result error j f h = ground (arith, f, h)

  JobOk-leased :
      (now lease_seconds : ℕ) (worker_id : String) (j : Job c)
      → j.attempt_count < 3
      → JobOk j
      → is_final j.status ≡ false
      → JobOk (leased c now lease_seconds worker_id j j)
  JobOk-leased now lease_seconds worker_id j less h active = ground (arith, less, h, active)

  JobOk-retried :
      (now : ℕ) (job : Job c) (error : String) (j : Job c)
      → JobOk job
      → j.lease_generation ≡ job.lease_generation
      → JobOk j
      → JobOk (retried c now job error j)
  JobOk-retried now job error j g same h = ground (arith, g, same, h)

  JobOk-cancelled_now : (now : ℕ) (j : Job c) → JobOk j → JobOk (cancelled_now c now j)
  JobOk-cancelled_now now j h = ground (arith, h)

  JobOk-asked_to_cancel :
      (now : ℕ) (j : Job c) → is_running j.status ≡ true → JobOk j → JobOk (asked_to_cancel c now j)
  JobOk-asked_to_cancel now j running_now h = ground (arith, running_now, h)

  pub RowsOk-sweep : (now : ℕ) (db : JobDb c) → RowsOk db.jobs → RowsOk (sweep c now db).jobs
  unfolding sweep
  RowsOk-sweep now db h =
      RowsOk-update (is_exhausted c now) (exhaust c now) db.jobs (λ j. refl)
        (λ j p k f. JobOk-exhaust now j k) h

  earlier_cases :
      (x : Job c) (o : Option (Job c)) (j : Job c) → earlier c x o ≡ some j → (x ≡ j) ⊎ (o ≡ some j)
  earlier_cases x none j h = inl (ground (arith, h))
  earlier_cases x (some k) j h = elim (Bool-cases (not_later c x k)) [
    | inl hit ↦ inl (some-injective x j (if_true (some x) (some k) hit ∙ h))
    | inr miss ↦ inr (if_false (some x) (some k) miss ∙ h)
  ]

  candidate_cases :
      (now : ℕ) (x : Job c) (xs : List (Job c)) (j : Job c)
      → candidate c now (x ∷ xs) ≡ some j
      → ((is_claimable c now x ≡ true) × (x ≡ j)) ⊎ (candidate c now xs ≡ some j)
  unfolding candidate
  candidate_cases now x xs j e = elim (Bool-cases (is_claimable c now x)) [
    | inl hit ↦
        elim (earlier_cases x (candidate c now xs) j
          (if_true (earlier c x (candidate c now xs)) _ hit ∙ e)) [
            | inl same ↦ inl (hit, same)
            | inr later ↦ inr later
          ]
    | inr miss ↦ inr (if_false (earlier c x (candidate c now xs)) _ miss ∙ e)
  ]

  -- The candidate is a row that can be claimed.
  pub candidate-is_claimable :
      (now : ℕ) (jobs : List (Job c)) (j : Job c)
      → candidate c now jobs ≡ some j
      → is_claimable c now j ≡ true
  unfolding candidate
  candidate-is_claimable now [] j h = cc
  candidate-is_claimable now (x ∷ xs) j h = elim (candidate_cases now x xs j h) [
    | inl (hit, same) ↦ subst (λ y. is_claimable c now y ≡ true) same hit
    | inr later ↦ candidate-is_claimable now xs j later
  ]

  pub All-candidate {ℓ} :
      (P : Job c → Type ℓ) (now : ℕ) (jobs : List (Job c)) (j : Job c)
      → All P jobs
      → candidate c now jobs ≡ some j
      → P j
  unfolding candidate
  All-candidate P now [] j h e = cc
  All-candidate P now (x ∷ xs) j (h, hs) e = elim (candidate_cases now x xs j e) [
    | inl (hit, same) ↦ subst P same h
    | inr later ↦ All-candidate P now xs j hs later
  ]

  pub claimable_facts :
      (now : ℕ) (j : Job c)
      → is_claimable c now j ≡ true
      → JobOk j
      → (j.attempt_count < 3) × (is_final j.status ≡ false)
  claimable_facts now j h k = ground (arith, h, k)

  pub same_row :
      (jobs : List (Job c)) (chosen j : Job c)
      → IsFound jobs chosen
      → IsFound jobs j
      → has_id c chosen.id j ≡ true
      → chosen ≡ j
  same_row jobs chosen j f g hit =
      let same : j.id ≡ chosen.id = ground (arith, hit, eq_iff j.id chosen.id) in
      some-injective chosen j (sym f ∙ ap (λ i. first (has_id c i) jobs) (sym same) ∙ g)

  pub RowsOk-claim :
      (now lease_seconds : ℕ) (worker_id : String) (db : JobDb c)
      → RowsOk db.jobs
      → RowsOk (claim c now lease_seconds worker_id db).1.jobs
  unfolding claim
  RowsOk-claim now lease_seconds worker_id db h =
      let jobs = (sweep c now db).jobs in
      let ok = RowsOk-sweep now db h in
      elim (Option-cases (candidate c now jobs)) [
        | inl nothing ↦ rw nothing ok
        | inr (chosen, e) ↦
            let found = All-candidate (IsFound jobs) now jobs chosen ok.found e in
            let chosen_ok = All-candidate JobOk now jobs chosen ok.each e in
            let facts =
              claimable_facts now chosen (candidate-is_claimable now jobs chosen e) chosen_ok in
            rw e (
              RowsOk-update (has_id c chosen.id) (leased c now lease_seconds worker_id chosen) jobs
                (λ j. refl)
                (λ j hit k its_own.
                  subst (λ (x : Job c). JobOk (leased c now lease_seconds worker_id chosen x))
                    (same_row jobs chosen j found its_own hit)
                    (JobOk-leased now lease_seconds worker_id chosen facts.0 chosen_ok facts.1))
                ok)
      ]

  -- Reports of workers, and requests of users.
  pub RowsOk-finish :
      (now : ℕ) (job : Job c) (status : JobStatus) (result : Option Json) (error : String)
      (db after : JobDb c)
      → is_final status ≡ true
      → finish c now job status result error db ≡ ok after
      → RowsOk db.jobs
      → RowsOk after.jobs
  unfolding finish
  RowsOk-finish now job status result error db after f h k =
      let (_, _, e) = >>=-eq-ok (owned c job db) _ h in
      subst (λ (d : JobDb c). RowsOk d.jobs) (same_value _ refl e)
        (RowsOk-update (same_generation c job) (finished c now status result error) db.jobs
          (λ j. refl) (λ j hit m found. JobOk-finished now status result error j f m) k)

  pub RowsOk-retry :
      (now : ℕ) (job : Job c) (error : String) (db : JobDb c)
      → JobOk job
      → RowsOk db.jobs
      → RowsOk (retry c now job error db).1.jobs
  unfolding retry
  RowsOk-retry now job error db g k =
      RowsOk-update (same_generation c job) (retried c now job error) db.jobs (λ j. refl)
        (λ j hit m found. JobOk-retried now job error j g (ground (arith, hit)) m) k

  RowsOk-cancel_rows :
      (now : ℕ) (job : Job c) (jobs : List (Job c))
      → IsFound jobs job
      → RowsOk jobs
      → RowsOk (cancel_rows c now job.id job.status jobs)
  RowsOk-cancel_rows now job jobs found k = elim (Bool-cases (is_waiting job.status)) [
    | inl waits ↦ rw waits (
        RowsOk-update (has_id c job.id) (cancelled_now c now) jobs (λ j. refl)
          (λ j hit m g. JobOk-cancelled_now now j m) k)
    | inr other ↦ elim (Bool-cases (is_running job.status)) [
      | inl runs ↦
          rw (other, runs)
            (RowsOk-update (has_id c job.id) (asked_to_cancel c now) jobs (λ j. refl)
              (λ j hit m g.
                JobOk-asked_to_cancel now j
                  (subst (λ (x : Job c). is_running x.status ≡ true)
                    (same_row jobs job j found g hit) runs)
                  m)
              k)
      | inr idle ↦ rw (other, idle) k
    ]
  ]

  pub RowsOk-cancel :
      (now : ℕ) (org job_id : String) (db : JobDb c) (r : Option (Job c) × JobDb c)
      → cancel c now org job_id db ≡ ok r
      → RowsOk db.jobs
      → RowsOk r.1.jobs
  unfolding cancel
  RowsOk-cancel now org job_id db r h k =
      let (job, found, e) =
        >>=-eq-ok (or_raise (first (in_organization c org job_id) db.jobs) job_not_found) _ h in
      subst (λ (p : Option (Job c) × JobDb c). RowsOk p.1.jobs) (same_value _ refl e)
        (let query : first (in_organization c org job_id) db.jobs ≡ some job =
            ground (arith, found) in
          let its_id : job.id ≡ job_id = ground (
            arith,
            first-matches (in_organization c org job_id) db.jobs job query,
            eq_iff job.id job_id,
          ) in
          subst (λ i. RowsOk (cancel_rows c now i job.status db.jobs)) its_id
            (RowsOk-cancel_rows now job db.jobs
              (All-first (IsFound db.jobs) (in_organization c org job_id) db.jobs job k.found query)
              k))

  pub JobOk-new_job :
      (sha3_text : String → String) (now : ℕ) (r : Request) → JobOk (new_job c sha3_text now r)
  JobOk-new_job sha3_text now r = ground arith

  RowsOk-append :
      (jobs : List (Job c)) (j : Job c)
      → any (has_id c j.id) jobs ≡ false
      → JobOk j
      → RowsOk jobs
      → RowsOk (jobs ++ j ∷ [])
  RowsOk-append jobs j fresh m k = record {
    each = All-append JobOk jobs (j ∷ []) k.each (m, tt);
    found =
        All-append (IsFound (jobs ++ j ∷ [])) jobs (j ∷ [])
          (All-map (IsFound jobs) (IsFound (jobs ++ j ∷ [])) jobs
            (λ x f. first-append (has_id c x.id) jobs (j ∷ []) x f) k.found)
          (first-last (has_id c j.id) jobs j fresh (eq_refl j.id), tt);
  }

  module _ (sha3_text : String → String) (now : ℕ) (r : Request) (db : JobDb c) where
    abbrev with_new_job : JobDb c
    with_new_job = record db { jobs = db.jobs ++ new_job c sha3_text now r ∷ [] }

    -- What `enqueue` may do: find the row of an earlier request, or add one of a new id.
    abbrev IsEnqueued : JobDb c → Type 0
    IsEnqueued after =
        (after ≡ db)
        ⊎ ((after ≡ with_new_job) × (any (has_id c (job_id_of c sha3_text r)) db.jobs ≡ false))

    reuse_cases :
        (o : Option (Job c)) (s : (Option (Job c) × Bool) × JobDb c)
        → reuse_or_insert c sha3_text now r db o ≡ ok s
        → IsEnqueued s.1
    reuse_cases none s h = elim (Bool-cases (any (has_id c (job_id_of c sha3_text r)) db.jobs)) [
      | inl taken ↦ cc (if_true (err duplicate_id) _ taken ∙ h)
      | inr fresh ↦
          let added : Result JobFault ((Option (Job c) × Bool) × JobDb c) =
            ok (
              (first (has_id c (job_id_of c sha3_text r)) with_new_job.jobs, true),
              with_new_job,
            ) in
          let same : _ ≡ s = same_value _ refl (if_false (err duplicate_id) added fresh ∙ h) in
          inr (ap (λ (p : (Option (Job c) × Bool) × JobDb c). p.1) (sym same), fresh)
    ]
    reuse_cases (some existing) s h =
        let (_, _, e) = >>=-eq-ok (check_same c sha3_text r existing) _ h in
        let same : _ ≡ s = same_value _ refl e in
        inl (ap (λ (p : (Option (Job c) × Bool) × JobDb c). p.1) (sym same))

    pub enqueue_cases :
        (s : (Option (Job c) × Bool) × JobDb c)
        → enqueue c sha3_text now r db ≡ ok s
        → IsEnqueued s.1
    unfolding enqueue
    enqueue_cases s h =
        let (_, _, e) = >>=-eq-ok (raise_if (not (contains r.kind job_kinds)) unknown_kind) _ h in
        reuse_cases (first (has_key c sha3_text r) db.jobs) s e

    pub RowsOk-enqueue :
        (s : (Option (Job c) × Bool) × JobDb c)
        → enqueue c sha3_text now r db ≡ ok s
        → RowsOk db.jobs
        → RowsOk s.1.jobs
    RowsOk-enqueue s h k = elim (enqueue_cases s h) [
      | inl same ↦ subst (λ (d : JobDb c). RowsOk d.jobs) (sym same) k
      | inr (same, fresh) ↦
          subst (λ (d : JobDb c). RowsOk d.jobs) (sym same)
            (RowsOk-append db.jobs (new_job c sha3_text now r) fresh (JobOk-new_job sha3_text now r)
              k)
    ]
