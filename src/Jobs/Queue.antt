-- ===== src/Jobs/Queue.antt =====
-- satsa/mlops/jobs.py: `MLJobQueue`, the lease of a job. `now` is an argument of each call.
use sat_sa_with_pqc.Base.{
  ℕ, ◌+◌, ◌*◌, String, ◌==◌, Bool, true, false, not, ◌&&◌, ◌||◌, Option, none, some, List, [], ◌∷◌,
  Result, ok, err, ◌>>=◌, raise_if, leb, ltb, eqb, if◌then◌else◌,
}
use sat_sa_with_pqc.Base.Rows.{update, first, any}
use sat_sa_with_pqc.Json.{Json}
use sat_sa_with_pqc.Evidence.Codec.{Codec}
use sat_sa_with_pqc.Jobs.Tables.{
  JobStatus, running, retry_wait, cancel_requested, failed, is_waiting, is_held,
  is_cancel_requested, is_failed, TrainingRun, Dataset, Job, JobDb,
}

pub data JobFault : Type 0 where
  lease_lost : String → JobFault
  job_cancelled : String → JobFault
  job_not_found : JobFault
  unknown_kind : JobFault
  -- The idempotency key belongs to another request.
  key_reused : JobFault
  duplicate_id : JobFault
  unreadable_params : JobFault

abbrev pub lease_exhausted : String
lease_exhausted = "lease_exhausted: worker stopped before completion after the maximum attempts"

-- `lease_expires_at<=?`, which NULL does not satisfy.
abbrev pub expired : ℕ → Option ℕ → Bool
expired now none = false
expired now (some t) = leb t now

abbrev pub time_if : Bool → ℕ → Option ℕ
time_if true now = some now
time_if false now = none

module _ (c : Codec) where
  open c use {Text, dumps}

  abbrev pub is_exhausted : ℕ → Job c → Bool
  is_exhausted now j =
      is_held j.status && expired now j.lease_expires_at && leb j.max_attempts j.attempt_count

  abbrev pub exhaust : ℕ → Job c → Job c
  exhaust now j = record j {
    status = failed;
    error = lease_exhausted;
    lease_owner = "";
    updated_at = now;
    completed_at = some now;
  }

  -- The runs of failed training jobs, and the datasets that no validation works on any more.
  abbrev is_failed_training : String → Job c → Bool
  is_failed_training job_id j = j.kind == "train" && is_failed j.status && j.id == job_id

  abbrev is_failed_validation : Dataset → Job c → Bool
  is_failed_validation d j =
      j.kind == "validate_dataset"
      && is_failed j.status
      && j.organization_id == d.organization_id
      && j.subject_id == d.id

  abbrev is_active_validation : Dataset → Job c → Bool
  is_active_validation d j =
      j.kind == "validate_dataset"
      && j.subject_id == d.id
      && (is_waiting j.status || is_held j.status)

  abbrev is_orphan_run : List (Job c) → TrainingRun → Bool
  is_orphan_run jobs r = r.status == "running" && any (is_failed_training r.job_id) jobs

  abbrev is_orphan_dataset : List (Job c) → Dataset → Bool
  is_orphan_dataset jobs d =
      d.status == "validating"
      && any (is_failed_validation d) jobs
      && not (any (is_active_validation d) jobs)

  -- The first three statements of `claim`.
  unfoldable pub sweep : ℕ → JobDb c → JobDb c
  sweep now db =
      let jobs = update (is_exhausted now) (exhaust now) db.jobs in
      record {
        jobs = jobs;
        training_runs =
            update (is_orphan_run jobs)
              (λ r. record r {
                status = "failed";
                error = "lease_exhausted";
                finished_at = some now;
              })
              db.training_runs;
        datasets =
            update (is_orphan_dataset jobs) (λ d. record d { status = "created" }) db.datasets;
      }

  abbrev pub is_claimable : ℕ → Job c → Bool
  is_claimable now j =
      ltb j.attempt_count j.max_attempts
      && (is_waiting j.status && leb j.available_at now
          || is_held j.status && expired now j.lease_expires_at)

  -- `ORDER BY available_at, created_at`
  abbrev pub not_later : Job c → Job c → Bool
  not_later i j =
      ltb i.available_at j.available_at
      || eqb i.available_at j.available_at && leb i.created_at j.created_at

  abbrev pub earlier : Job c → Option (Job c) → Option (Job c)
  earlier j none = some j
  earlier j (some k) = if not_later j k then some j else some k

  -- `LIMIT 1`; of two jobs with the same times the first row is taken.
  unfoldable pub candidate : ℕ → List (Job c) → Option (Job c)
  candidate now [] = none
  candidate now (j ∷ js) =
      let rest = candidate now js in if is_claimable now j then earlier j rest else rest

  abbrev pub has_id : String → Job c → Bool
  has_id job_id j = j.id == job_id

  abbrev pub claimed_status : JobStatus → JobStatus
  claimed_status cancel_requested = cancel_requested
  claimed_status _ = running

  -- The UPDATE that gives the candidate to the worker.
  abbrev pub leased : ℕ → ℕ → String → Job c → Job c → Job c
  leased now lease_seconds worker_id chosen j = record j {
    status = claimed_status chosen.status;
    attempt_count = j.attempt_count + 1;
    lease_owner = worker_id;
    lease_generation = chosen.lease_generation + 1;
    lease_expires_at = some (now + lease_seconds);
    updated_at = now;
  }

  abbrev pub give : ℕ → ℕ → String → JobDb c → Option (Job c) → Option (Job c) × JobDb c
  give now lease_seconds worker_id db none = (none, db)
  give now lease_seconds worker_id db (some chosen) =
      let jobs = update (has_id chosen.id) (leased now lease_seconds worker_id chosen) db.jobs in
      (first (has_id chosen.id) jobs, record db { jobs = jobs })

  -- Calls are one after another: `FOR UPDATE SKIP LOCKED`, with which PostgreSQL lets two workers claim
  -- at once, is left out.
  unfoldable pub claim : ℕ → ℕ → String → JobDb c → Option (Job c) × JobDb c
  claim now lease_seconds worker_id db =
      let swept = sweep now db in give now lease_seconds worker_id swept (candidate now swept.jobs)

  -- The row has the lease that the worker was given.
  abbrev pub same_lease : Job c → Job c → Bool
  same_lease job j =
      j.id == job.id
      && j.lease_owner == job.lease_owner
      && eqb j.lease_generation job.lease_generation

  abbrev pub held_or_lost : String → Option (Job c) → Result JobFault (Job c)
  held_or_lost job_id none = err (lease_lost job_id)
  held_or_lost job_id (some row) = if is_held row.status then ok row else err (lease_lost job_id)

  -- `_owned`
  unfoldable pub owned : Job c → JobDb c → Result JobFault (Job c)
  owned job db = held_or_lost job.id (first (same_lease job) db.jobs)

  unfoldable pub boundary : Job c → JobDb c → Result JobFault (Unit {0})
  boundary job db = do
    row ← owned job db
    raise_if (is_cancel_requested row.status) (job_cancelled job.id)

  -- `WHERE id=? AND lease_generation=?`
  abbrev pub same_generation : Job c → Job c → Bool
  same_generation job j = j.id == job.id && eqb j.lease_generation job.lease_generation

  abbrev dumped : Option Json → Option Text
  dumped none = none
  dumped (some v) = some (dumps v)

  abbrev pub finished : ℕ → JobStatus → Option Json → String → Job c → Job c
  finished now status result error j = record j {
    status = status;
    result_json = dumped result;
    error = error;
    lease_owner = "";
    lease_expires_at = none;
    updated_at = now;
    completed_at = some now;
  }

  unfoldable pub finish :
      ℕ → Job c → JobStatus → Option Json → String → JobDb c → Result JobFault (JobDb c)
  finish now job status result error db = do
    row ← owned job db
    ok (record db {
      jobs = update (same_generation job) (finished now status result error) db.jobs;
    })

  abbrev pub attempts_used : Job c → Bool
  attempts_used job = leb job.max_attempts job.attempt_count

  abbrev pub retry_status : Job c → JobStatus
  retry_status job = if attempts_used job then failed else retry_wait

  abbrev pub retried : ℕ → Job c → String → Job c → Job c
  retried now job error j = record j {
    status = retry_status job;
    error = error;
    lease_owner = "";
    lease_expires_at = none;
    available_at = now + 5 * job.attempt_count;
    updated_at = now;
    completed_at = time_if (attempts_used job) now;
  }

  -- `retry` asks for no lease: the generation is its only condition.
  unfoldable pub retry : ℕ → Job c → String → JobDb c → JobStatus × JobDb c
  retry now job error db = (
    retry_status job,
    record db { jobs = update (same_generation job) (retried now job error) db.jobs },
  )
