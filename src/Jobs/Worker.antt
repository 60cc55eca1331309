-- ===== src/Jobs/Worker.antt =====
-- `MLJobWorker.run_once` of satsa/mlops/jobs.py. The handlers train models and read stored files: what
-- they do is an argument, as an outcome and a new database. The audit, whose failures are only logged,
-- is left out. `began` is the time of the claim, and `later` that of the statements after the handler.
use sat_sa_with_pqc.Base.{
  ℕ, String, ◌==◌, Bool, ◌&&◌, ◌>>=◌, Option, none, some, Result, ok, err, if◌then◌else◌,
}
use sat_sa_with_pqc.Base.Rows.{update}
use sat_sa_with_pqc.Json.{Json}
use sat_sa_with_pqc.Evidence.Codec.{Codec}
use sat_sa_with_pqc.Jobs.Tables.{
  JobStatus, completed, failed, cancelled, is_failed, TrainingRun, Dataset, Job, JobDb,
}
use sat_sa_with_pqc.Jobs.Queue.{JobFault, lease_lost, job_cancelled, claim, boundary, finish, retry}

-- What a handler, or the whole `try`, ends with.
pub data Outcome : Type 0 where
  returned : Json → Outcome
  stopped : Outcome
  lost : Outcome
  -- `DomainValidationError` and `NotFoundError`
  invalid : String → Outcome
  transient : String → Outcome

abbrev pub outcome_of : JobFault → Outcome
outcome_of (lease_lost job_id) = lost
outcome_of (job_cancelled job_id) = stopped
outcome_of _ = transient "JobFault"

module _ (c : Codec) where
  -- The running training run of a job.
  abbrev pub runs_for : Job c → TrainingRun → Bool
  runs_for job r =
      r.organization_id == job.organization_id && r.job_id == job.id && r.status == "running"

  abbrev pub validates_for : Job c → Dataset → Bool
  validates_for job d =
      d.organization_id == job.organization_id && d.id == job.subject_id && d.status == "validating"

  abbrev pub reset_validating : Job c → JobDb c → JobDb c
  reset_validating job db = record db {
    datasets = update (validates_for job) (λ d. record d { status = "created" }) db.datasets;
  }

  unfoldable pub on_cancel : ℕ → Job c → JobDb c → JobDb c
  on_cancel later job db =
      if job.kind == "train"
      then record db {
        training_runs =
            update (runs_for job) (λ r. record r { status = "cancelled"; finished_at = some later })
              db.training_runs;
      }
      else if job.kind == "validate_dataset"
      then reset_validating job db
      else db

  unfoldable pub on_failure : ℕ → Job c → String → JobDb c → JobDb c
  on_failure later job error db =
      if job.kind == "train"
      then record db {
        training_runs =
            update (runs_for job)
              (λ r. record r { status = "failed"; error = error; finished_at = some later })
              db.training_runs;
      }
      else if job.kind == "validate_dataset"
      then reset_validating job db
      else db

  abbrev pub completed_with : Json → JobDb c → Result JobFault (JobDb c) → Outcome × JobDb c
  completed_with v db (err e) = (outcome_of e, db)
  completed_with v db (ok after) = (returned v, after)

  abbrev pub complete : ℕ → Job c → Json → JobDb c → Outcome × JobDb c
  complete later job v db =
      completed_with v db (boundary c job db >>= λ u. finish c later job completed (some v) "" db)

  abbrev pub after_handler : ℕ → Job c → Outcome × JobDb c → Outcome × JobDb c
  after_handler later job (returned v, db) = complete later job v db
  after_handler later job (other, db) = (other, db)

  abbrev pub after_boundary :
      (Job c → JobDb c → Outcome × JobDb c)
      → ℕ
      → Job c
      → JobDb c
      → Result JobFault (Unit {0})
      → Outcome × JobDb c
  after_boundary handler later job db (err e) = (outcome_of e, db)
  after_boundary handler later job db (ok u) = after_handler later job (handler job db)

  -- The `try`.
  unfoldable pub attempt :
      (Job c → JobDb c → Outcome × JobDb c) → ℕ → Job c → JobDb c → Outcome × JobDb c
  attempt handler later job db = after_boundary handler later job db (boundary c job db)

  -- `finish` in an `except` clause, where a LeaseLost is not caught.
  abbrev pub closed :
      String → JobDb c → Result JobFault (JobDb c) → Result JobFault (Option String) × JobDb c
  closed status db (err e) = (err e, db)
  closed status db (ok after) = (ok (some status), after)

  abbrev pub status_text : JobStatus → String
  status_text s = if is_failed s then "failed" else "retry_wait"

  abbrev pub retry_again :
      ℕ → Job c → String → JobStatus × JobDb c → Result JobFault (Option String) × JobDb c
  retry_again later job error (status, db) = (
    ok (some (status_text status)),
    if is_failed status then on_failure later job error db else db,
  )

  -- The `except` clauses.
  abbrev pub settle : ℕ → Job c → Outcome × JobDb c → Result JobFault (Option String) × JobDb c
  settle later job (returned v, db) = (ok (some "completed"), db)
  settle later job (stopped, db) =
      let cleaned = on_cancel later job db in
      closed "cancelled" cleaned (finish c later job cancelled none "cancelled on request" cleaned)
  settle later job (lost, db) = (ok (some "lease_lost"), db)
  settle later job (invalid error, db) =
      let cleaned = on_failure later job error db in
      closed "failed" cleaned (finish c later job failed none error cleaned)
  settle later job (transient error, db) = retry_again later job error (retry c later job error db)

  abbrev pub run_claimed :
      (Job c → JobDb c → Outcome × JobDb c)
      → ℕ
      → Option (Job c) × JobDb c
      → Result JobFault (Option String) × JobDb c
  run_claimed handler later (none, db) = (ok none, db)
  run_claimed handler later (some job, db) = settle later job (attempt handler later job db)

  unfoldable pub run_once :
      (Job c → JobDb c → Outcome × JobDb c)
      → ℕ
      → ℕ
      → ℕ
      → String
      → JobDb c
      → Result JobFault (Option String) × JobDb c
  run_once handler began later lease_seconds worker_id db =
      run_claimed handler later (claim c began lease_seconds worker_id db)
