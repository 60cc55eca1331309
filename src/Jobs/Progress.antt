-- ===== src/Jobs/Progress.antt =====
-- No job is stuck, and what a cancellation and a repeated request do.
use sat_sa_with_pqc.Base.{
  if_true, if_false, ℕ, ◌<◌, String, ◌==◌, eq_iff, eq_refl, ◌≡◌, ◌≢◌, ◌⊎◌, inl, inr, refl, sym, ◌∙◌,
  subst, ap, true, false, Option, none, some, List, [], ◌∷◌, ◌++◌, Result, ok, err, same_value,
  contains, Bool-cases, All, All-map, All-both, All-always, arith,
}
use sat_sa_with_pqc.Base.Rows.{
  update, first, any, All-first, All-updated, first-matches, first-update, first-last, first-new,
}
use sat_sa_with_pqc.Json.{Dict, obj}
use sat_sa_with_pqc.Json.Equal.{equal}
use sat_sa_with_pqc.Evidence.Codec.{Codec}
use sat_sa_with_pqc.Jobs.Tables.{
  JobStatus, retry_wait, cancel_requested, is_waiting, is_held, is_running, is_cancel_requested,
  Job, JobDb,
}
use sat_sa_with_pqc.Jobs.Queue.{
  JobFault, key_reused, job_cancelled, expired, is_exhausted, exhaust, sweep, is_claimable, earlier,
  not_later, candidate, has_id, claim, same_lease, lease_lost, held_or_lost, retry_status, owned,
  boundary, same_generation, retry, retried,
}
use sat_sa_with_pqc.Jobs.Requests.{
  Request, job_kinds, has_key, job_id_of, new_job, check_same, enqueue, in_organization,
  cancelled_now, asked_to_cancel, cancel_rows, cancel,
}
use sat_sa_with_pqc.Jobs.Steps.{is_final}
use sat_sa_with_pqc.Jobs.Leases.{claim-none_sweeps, keeps_id}
use sat_sa_with_pqc.Jobs.Invariant.{JobOk, IsFound, RowsOk, RowsOk-sweep}

module _ (c : Codec) where
  -- Nothing is to be done for the job now: it is over, waits for a later time, or has a live lease.
  pub IsSettled : ℕ → Job c → Type 0
  IsSettled now j =
      (is_final j.status ≡ true)
      ⊎ ((is_waiting j.status ≡ true) × (now < j.available_at))
      ⊎ ((is_held j.status ≡ true) × (expired now j.lease_expires_at ≡ false))

  earlier-some : (j : Job c) (o : Option (Job c)) → earlier c j o ≢ none
  earlier-some j none h = cc h
  earlier-some j (some k) h = elim (Bool-cases (not_later c j k)) [
    | inl hit ↦ let no : some j ≡ none = if_true (some j) (some k) hit ∙ h in cc no
    | inr miss ↦ let no : some k ≡ none = if_false (some j) (some k) miss ∙ h in cc no
  ]

  candidate-none :
      (now : ℕ) (jobs : List (Job c))
      → candidate c now jobs ≡ none
      → All (λ j. is_claimable c now j ≡ false) jobs
  unfolding candidate
  candidate-none now [] h = tt
  candidate-none now (j ∷ js) h = elim (Bool-cases (is_claimable c now j)) [
    | inl hit ↦
        let rest = candidate c now js in
        let no : earlier c j rest ≡ none = if_true (earlier c j rest) rest hit ∙ h in
        elim (earlier-some j rest no) [ ]
    | inr miss ↦
        (miss, candidate-none now js (if_false (earlier c j (candidate c now js)) _ miss ∙ h))
  ]

  none_exhausted :
      (now : ℕ) (db : JobDb c) → All (λ j. is_exhausted c now j ≡ false) (sweep c now db).jobs
  unfolding sweep
  none_exhausted now db =
      All-updated (λ j. Unit {0}) (λ j. is_exhausted c now j ≡ false) (is_exhausted c now)
        (exhaust c now) db.jobs
        (λ j u. elim (Bool-cases (is_exhausted c now j)) [
          | inl hit ↦ rw hit refl
          | inr miss ↦ rw miss miss
        ])
        (All-always (λ j. Unit {0}) db.jobs (λ j. tt))

  settled :
      (now : ℕ) (j : Job c)
      → JobOk c j
      → is_claimable c now j ≡ false
      → is_exhausted c now j ≡ false
      → IsSettled now j
  unfolding IsSettled
  settled now j k unclaimed unexhausted = ground (arith, k, unclaimed, unexhausted)

  -- If a claim finds no job, then nothing is to be done: every job is over, waits for a later time, or
  -- is held under a lease that has not expired.
  pub claim-none-IsSettled :
      (now lease_seconds : ℕ) (worker_id : String) (db after : JobDb c)
      → RowsOk c db.jobs
      → claim c now lease_seconds worker_id db ≡ (none, after)
      → All (IsSettled now) after.jobs
  unfolding claim
  claim-none-IsSettled now lease_seconds worker_id db after k h =
      let jobs = (sweep c now db).jobs in
      let rows = RowsOk-sweep c now db k in
      let (nothing, same) = claim-none_sweeps c now lease_seconds worker_id db after h k in
      let unclaimed = candidate-none now jobs nothing in
      let both =
        All-both (JobOk c) _ jobs rows.each (All-both _ _ jobs unclaimed (none_exhausted now db)) in
      subst (λ (d : JobDb c). All (IsSettled now) d.jobs) same
        (All-map _ (IsSettled now) jobs (λ j f. settled now j f.0 f.1.0 f.1.1) both)

  -- The branches of a cancellation of the job that `row` is.
  abbrev pub Cancelled : ℕ → Job c → JobDb c → JobDb c → Option (Job c) → Type 0
  Cancelled now row db after found =
      (is_waiting row.status ≡ true → found ≡ some (cancelled_now c now row))
      × (is_running row.status ≡ true → found ≡ some (asked_to_cancel c now row))
      × ((is_waiting row.status ≡ false) × (is_running row.status ≡ false) → after ≡ db)

  found_updated :
      (f : Job c → Job c) (jobs : List (Job c)) (row : Job c)
      → ((j : Job c) → (f j).id ≡ j.id)
      → IsFound c jobs row
      → first (has_id c row.id) (update (has_id c row.id) f jobs) ≡ some (f row)
  found_updated f jobs row ids found =
      first-update (has_id c row.id) (has_id c row.id) f jobs row
        (keeps_id c (has_id c row.id) f row.id ids) found
      ∙ ap some (sym (if_true (f row) row (eq_refl row.id)))

  running_waits_not : (s : JobStatus) → is_running s ≡ true → is_waiting s ≡ false
  running_waits_not s h = ground (arith, h)

  Cancelled-rows :
      (now : ℕ) (row : Job c) (db : JobDb c)
      → IsFound c db.jobs row
      → let after : JobDb c = record db { jobs = cancel_rows c now row.id row.status db.jobs } in
        Cancelled now row db after (first (has_id c row.id) after.jobs)
  Cancelled-rows now row db found = (
    (λ waits. rw waits (found_updated (cancelled_now c now) db.jobs row (λ j. refl) found)),
    (λ runs.
        rw (running_waits_not row.status runs, runs)
          (found_updated (asked_to_cancel c now) db.jobs row (λ j. refl) found)),
    (λ idle. rw (idle.0, idle.1) refl),
  )

  -- Cancelling the job of an organization always succeeds: a job that waits is cancelled at once, a
  -- running one is asked to stop, and any other one is left as it is, with the whole database.
  pub cancel_lem :
      (now : ℕ) (org : String) (row : Job c) (db : JobDb c)
      → RowsOk c db.jobs
      → first (in_organization c org row.id) db.jobs ≡ some row
      → (found : Option (Job c)) × (after : JobDb c) × (cancel c now org row.id db
          ≡ ok (found, after))
        × Cancelled now row db after found
  unfolding cancel
  cancel_lem now org row db k query =
      let own =
        All-first (IsFound c db.jobs) (in_organization c org row.id) db.jobs row k.found query in
      (_, _, rw query refl, Cancelled-rows now row db own)

  held_row :
      (i : String) (o : Option (Job c)) (row : Job c) → held_or_lost c i o ≡ ok row → o ≡ some row
  held_row i none row h = cc h
  held_row i (some x) row h = elim (Bool-cases (is_held x.status)) [
    | inl hit ↦
        let held : Result JobFault (Job c) = ok x in
        let e : held ≡ ok row = if_true held (err (lease_lost i)) hit ∙ h in
        ap some (same_value _ refl e)
    | inr miss ↦
        let lost : Result JobFault (Job c) = err (lease_lost i) in
        let e : lost ≡ ok row = if_false (ok x) lost miss ∙ h in cc e
  ]

  owned_row :
      (job row : Job c) (db : JobDb c)
      → owned c job db ≡ ok row
      → first (same_lease c job) db.jobs ≡ some row
  unfolding owned
  owned_row job row db h = held_row job.id (first (same_lease c job) db.jobs) row h

  waits_again :
      (job : Job c) → job.attempt_count < job.max_attempts → retry_status c job ≡ retry_wait
  waits_again job less = ground (arith, less)

  -- A worker that reports a transient error of a job with attempts left, after the user asked to cancel
  -- the job, loses the request: the job waits to be tried again.
  pub retry_forgets_cancel :
      (now : ℕ) (job row : Job c) (error : String) (db : JobDb c)
      → RowsOk c db.jobs
      → owned c job db ≡ ok row
      → row.status ≡ cancel_requested
      → job.attempt_count < job.max_attempts
      → (boundary c job db ≡ err (job_cancelled job.id))
        × ((next : Job c) × (first (has_id c row.id) (retry c now job error db).1.jobs ≡ some next)
            × (next.status ≡ retry_wait))
  unfolding boundary retry
  retry_forgets_cancel now job row error db k held asked less =
      let asks : is_cancel_requested row.status ≡ true = ap is_cancel_requested asked in
      let query = owned_row job row db held in
      let hit = first-matches (same_lease c job) db.jobs row query in
      let own = All-first (IsFound c db.jobs) (same_lease c job) db.jobs row k.found query in
      let matches : same_generation c job row ≡ true = ground (arith, hit) in
      let tries : retry_status c job ≡ retry_wait = waits_again job less in
      (
        rw (held, asks) refl,
        (
          retried c now job error row,
          first-update (has_id c row.id) (same_generation c job) (retried c now job error) db.jobs
                row
                (keeps_id c (same_generation c job) (retried c now job error) row.id (λ j. refl))
                own
              ∙ ap some (sym (if_true (retried c now job error row) row matches)),
          tries,
        ),
      )

module _ (c : Codec) (sha3_text : String → String) where
  -- A request with the organization, the kind and the idempotency key of another one.
  abbrev pub again : Request → String → String → Dict → Request
  again r user subject params = record r { user_id = user; subject_id = subject; params = params }

  -- The same subject, and parameters that are equal as Python compares them.
  abbrev pub IsRepeated : Request → String → Dict → Type 0
  IsRepeated r subject params =
      (subject ≡ r.subject_id) × (equal (obj r.params) (obj params) ≡ true)

  check_repeated :
      (now : ℕ) (r : Request) (user subject : String) (params : Dict)
      → IsRepeated r subject params
      → check_same c sha3_text (again r user subject params) (new_job c sha3_text now r) ≡ ok tt
  check_repeated now r user subject params (e, f) =
      let same_subject : (r.subject_id == subject) ≡ true =
        ap (λ x. r.subject_id == x) e ∙ eq_refl r.subject_id in
      rw (same_subject, c.loads-dumps (obj r.params), f) refl

  check_changed :
      (now : ℕ) (r : Request) (user subject : String) (params : Dict)
      → ¬ IsRepeated r subject params
      → check_same c sha3_text (again r user subject params) (new_job c sha3_text now r)
        ≡ err key_reused
  check_changed now r user subject params other = elim (Bool-cases (r.subject_id == subject)) [
    | inl same ↦ elim (Bool-cases (equal (obj r.params) (obj params))) [
      | inl equals ↦ elim (other (sym ((eq_iff r.subject_id subject).0 same), equals)) [ ]
      | inr differs ↦ rw (same, c.loads-dumps (obj r.params), differs) refl
    ]
    | inr another ↦ rw another refl
  ]

  -- A request of a known kind whose key and id are new is queued. A request with the same key is then
  -- answered by the queued job and changes nothing, if its subject is the same and its parameters are
  -- equal as Python compares them; otherwise it is refused.
  pub enqueue-again :
      (now later : ℕ) (r : Request) (user subject : String) (params : Dict) (db : JobDb c)
      → contains r.kind job_kinds ≡ true
      → first (has_key c sha3_text r) db.jobs ≡ none
      → any (has_id c (job_id_of c sha3_text r)) db.jobs ≡ false
      → (after : JobDb c) × (enqueue c sha3_text now r db
          ≡ ok ((some (new_job c sha3_text now r), true), after))
        × (IsRepeated r subject params
            → enqueue c sha3_text later (again r user subject params) after
              ≡ ok ((some (new_job c sha3_text now r), false), after))
        × (¬ IsRepeated r subject params
            → enqueue c sha3_text later (again r user subject params) after ≡ err key_reused)
  unfolding enqueue
  enqueue-again now later r user subject params db known new fresh =
      let j = new_job c sha3_text now r in
      let after : JobDb c = record db { jobs = db.jobs ++ j ∷ [] } in
      let its_key : has_key c sha3_text r j ≡ true =
        rw (eq_refl r.organization_id, eq_refl r.kind, eq_refl r.idempotency_key) refl in
      let found : first (has_key c sha3_text r) after.jobs ≡ some j =
        first-new (has_key c sha3_text r) db.jobs j new its_key in
      (
        after,
        rw (known, new, fresh, first-last (has_id c j.id) db.jobs j fresh (eq_refl j.id)) refl,
        (λ repeated. rw (known, found, check_repeated now r user subject params repeated) refl),
        (λ changed. rw (known, found, check_changed now r user subject params changed) refl),
      )
