-- ===== src/Jobs/Tables.antt =====
-- The rows of satsa/mlops/jobs.py (qsmlops/database/migrations.py). Times are whole seconds.
use sat_sa_with_pqc.Base.{ℕ, String, Bool, true, false, Option, List}
use sat_sa_with_pqc.Evidence.Codec.{Codec}

pub data JobStatus : Type 0 where
  queued : JobStatus
  running : JobStatus
  retry_wait : JobStatus
  cancel_requested : JobStatus
  completed : JobStatus
  failed : JobStatus
  cancelled : JobStatus

-- `status IN ('queued','retry_wait')`
abbrev pub is_waiting : JobStatus → Bool
is_waiting queued = true
is_waiting retry_wait = true
is_waiting _ = false

-- `status IN ('running','cancel_requested')`
abbrev pub is_held : JobStatus → Bool
is_held running = true
is_held cancel_requested = true
is_held _ = false

abbrev pub is_running : JobStatus → Bool
is_running running = true
is_running _ = false

abbrev pub is_cancel_requested : JobStatus → Bool
is_cancel_requested cancel_requested = true
is_cancel_requested _ = false

abbrev pub is_failed : JobStatus → Bool
is_failed failed = true
is_failed _ = false

-- The columns of a training run and of a dataset that the queue reads or writes.
pub record TrainingRun : Type 0 where
  pub id : String
  pub organization_id : String
  pub job_id : String
  pub status : String
  pub error : String
  pub finished_at : Option ℕ

pub record Dataset : Type 0 where
  pub id : String
  pub organization_id : String
  pub status : String

module _ (c : Codec) where
  open c use {Text}

  pub record Job : Type 0 where
    pub id : String
    pub organization_id : String
    pub kind : String
    pub subject_id : String
    pub status : JobStatus
    pub params_json : Text
    pub result_json : Option Text
    pub error : String
    pub attempt_count : ℕ
    pub max_attempts : ℕ
    pub lease_owner : String
    pub lease_generation : ℕ
    pub lease_expires_at : Option ℕ
    pub available_at : ℕ
    pub idempotency_key : String
    pub requested_by : String
    pub created_at : ℕ
    pub updated_at : ℕ
    pub completed_at : Option ℕ

  pub record JobDb : Type 0 where
    pub jobs : List Job
    pub training_runs : List TrainingRun
    pub datasets : List Dataset
