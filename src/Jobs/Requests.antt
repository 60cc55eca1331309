-- ===== src/Jobs/Requests.antt =====
-- satsa/mlops/jobs.py: `enqueue` and `cancel`, what a user asks of the queue.
use sat_sa_with_pqc.Base.{
  ℕ, String, ◌==◌, Bool, true, false, not, ◌&&◌, Option, none, some, List, [], ◌∷◌, ◌++◌, Result,
  ok, err, ◌>>=◌, ◌>>◌, raise_if, or_raise, contains, if◌then◌else◌,
}
use sat_sa_with_pqc.Base.Rows.{update, first, any}
use sat_sa_with_pqc.Json.{Dict, obj}
use sat_sa_with_pqc.Json.Equal.{equal}
use sat_sa_with_pqc.Evidence.Codec.{Codec}
use sat_sa_with_pqc.Registry.Tables.{stable_id}
use sat_sa_with_pqc.Jobs.Tables.{
  JobStatus, queued, cancel_requested, cancelled, is_waiting, is_running, Job, JobDb,
}
use sat_sa_with_pqc.Jobs.Queue.{
  JobFault, job_not_found, unknown_kind, key_reused, duplicate_id, unreadable_params, has_id,
}

abbrev pub job_kinds : List String
job_kinds = "validate_dataset" ∷ "train" ∷ "drift" ∷ []

pub record Request : Type 0 where
  pub organization_id : String
  pub user_id : String
  pub kind : String
  pub subject_id : String
  pub params : Dict
  pub idempotency_key : String

module _ (c : Codec) (sha3_text : String → String) where
  open c use {Text, dumps, loads}

  abbrev pub has_key : Request → Job c → Bool
  has_key r j =
      j.organization_id == r.organization_id
      && j.kind == r.kind
      && j.idempotency_key == r.idempotency_key

  unfoldable pub job_id_of : Request → String
  job_id_of r = stable_id sha3_text "mljob" (r.organization_id ∷ r.kind ∷ r.idempotency_key ∷ [])

  abbrev pub new_job : ℕ → Request → Job c
  new_job now r = record {
    id = job_id_of r;
    organization_id = r.organization_id;
    kind = r.kind;
    subject_id = r.subject_id;
    status = queued;
    params_json = dumps (obj r.params);
    result_json = none;
    error = "";
    attempt_count = 0;
    max_attempts = 3;
    lease_owner = "";
    lease_generation = 0;
    lease_expires_at = none;
    available_at = now;
    idempotency_key = r.idempotency_key;
    requested_by = r.user_id;
    created_at = now;
    updated_at = now;
    completed_at = none;
  }

  -- `existing["subject_id"] != subject_id or json.loads(existing["params_json"]) != params`
  abbrev pub check_same : Request → Job c → Result JobFault (Unit {0})
  check_same r existing = do
    raise_if (not (existing.subject_id == r.subject_id)) key_reused
    stored ← or_raise (loads existing.params_json) unreadable_params
    raise_if (not (equal stored (obj r.params))) key_reused

  -- The `INSERT`, which the primary key may refuse.
  abbrev pub insert_job :
      ℕ → Request → JobDb c → Result JobFault ((Option (Job c) × Bool) × JobDb c)
  insert_job now r db =
      if any (has_id c (job_id_of r)) db.jobs
      then err duplicate_id
      else let jobs = db.jobs ++ new_job now r ∷ [] in
        ok ((first (has_id c (job_id_of r)) jobs, true), record db { jobs = jobs })

  abbrev pub reuse_or_insert :
      ℕ → Request → JobDb c → Option (Job c) → Result JobFault ((Option (Job c) × Bool) × JobDb c)
  reuse_or_insert now r db none = insert_job now r db
  reuse_or_insert now r db (some existing) =
      check_same r existing >> ok ((some existing, false), db)

  -- The row, and whether it is new.
  unfoldable pub enqueue :
      ℕ → Request → JobDb c → Result JobFault ((Option (Job c) × Bool) × JobDb c)
  enqueue now r db =
      raise_if (not (contains r.kind job_kinds)) unknown_kind
      >> reuse_or_insert now r db (first (has_key r) db.jobs)

module _ (c : Codec) where
  abbrev pub in_organization : String → String → Job c → Bool
  in_organization org job_id j = j.organization_id == org && j.id == job_id

  abbrev pub cancelled_now : ℕ → Job c → Job c
  cancelled_now now j = record j { status = cancelled; updated_at = now; completed_at = some now }

  abbrev pub asked_to_cancel : ℕ → Job c → Job c
  asked_to_cancel now j = record j { status = cancel_requested; updated_at = now }

  -- The branches of `cancel` on the status of the job.
  abbrev pub cancel_rows : ℕ → String → JobStatus → List (Job c) → List (Job c)
  cancel_rows now job_id status jobs =
      if is_waiting status
      then update (has_id c job_id) (cancelled_now now) jobs
      else if is_running status
      then update (has_id c job_id) (asked_to_cancel now) jobs
      else jobs

  unfoldable pub cancel : ℕ → String → String → JobDb c → Result JobFault (Option (Job c) × JobDb c)
  cancel now org job_id db = do
    job ← or_raise (first (in_organization org job_id) db.jobs) job_not_found
    let jobs = cancel_rows now job_id job.status db.jobs
    ok (first (has_id c job_id) jobs, record db { jobs = jobs })
