-- ===== src/Jobs/Tests.antt =====
-- satsa/mlops/jobs.py: one job through the queue, and the theorems at it.
use sat_sa_with_pqc.Base.{
  ℕ, ◌≤◌, String, ◌≡◌, inl, refl, true, false, Option, none, some, List, [], ◌∷◌, ok, err, All,
  arith,
}
use sat_sa_with_pqc.Base.Rows.{first, any}
use sat_sa_with_pqc.Json.{Json, Dict, null, num, bool, obj, end, field}
use sat_sa_with_pqc.Json.Equal.{equal}
use sat_sa_with_pqc.Base.Int.{pos}
use sat_sa_with_pqc.Evidence.Tests.{toy}
use sat_sa_with_pqc.Registry.Tables.{stable_id}
use sat_sa_with_pqc.Registry.Samples.{plain}
use sat_sa_with_pqc.Jobs.Tables.{TrainingRun, JobStatus, retry_wait, Job, JobDb}
use sat_sa_with_pqc.Jobs.Queue.{
  lease_lost, job_cancelled, key_reused, sweep, candidate, leased, claim, owned, boundary, finish,
  retry, has_id,
}
use sat_sa_with_pqc.Jobs.Requests.{
  Request, job_id_of, new_job, enqueue, asked_to_cancel, in_organization, cancel,
}
use sat_sa_with_pqc.Jobs.Worker.{Outcome, returned, invalid, on_failure, settle, run_once}
use sat_sa_with_pqc.Jobs.Released.{IsOver, run_once_releases}
use sat_sa_with_pqc.Jobs.Steps.{World, enqueues, claims, Reachable, start, next}
use sat_sa_with_pqc.Jobs.Invariant.{JobOk, RowsOk, RowsOk-cancel}
use sat_sa_with_pqc.Jobs.Fencing.{
  count_given, Reachable-WorldOk, at_most_three_claims, claim_fences,
}
use sat_sa_with_pqc.Jobs.Progress.{
  IsSettled, claim-none-IsSettled, retry_forgets_cancel, again, IsRepeated, enqueue-again,
}

abbrev request : Request
request = record {
  organization_id = "org";
  user_id = "ana";
  kind = "train";
  subject_id = "d1";
  params = end;
  idempotency_key = "k";
}

abbrev with_jobs : List (Job toy) → JobDb toy
with_jobs jobs = record { jobs = jobs; training_runs = []; datasets = [] }

abbrev job : Job toy
job = new_job toy plain 5 request

abbrev lease_1 : Job toy
lease_1 = leased toy 6 10 "w1" job job

abbrev lease_2 : Job toy
lease_2 = leased toy 20 10 "w2" lease_1 lease_1

enqueued : enqueue toy plain 5 request (with_jobs []) ≡ ok ((some job, true), with_jobs (job ∷ []))
unfolding enqueue job_id_of stable_id
enqueued = refl

claimed_1 : claim toy 6 10 "w1" (with_jobs (job ∷ [])) ≡ (some lease_1, with_jobs (lease_1 ∷ []))
unfolding claim sweep candidate job_id_of stable_id
claimed_1 = refl

-- The lease has expired at 16.
claimed_2 :
    claim toy 20 10 "w2" (with_jobs (lease_1 ∷ [])) ≡ (some lease_2, with_jobs (lease_2 ∷ []))
unfolding claim sweep candidate job_id_of stable_id
claimed_2 = refl

claimed_none : claim toy 7 10 "w2" (with_jobs (lease_1 ∷ [])) ≡ (none, with_jobs (lease_1 ∷ []))
unfolding claim sweep candidate job_id_of stable_id
claimed_none = refl

abbrev world : World toy plain
world = record { given = lease_1 ∷ []; db = with_jobs (lease_1 ∷ []) }

abbrev waiting : World toy plain
waiting = record { given = []; db = with_jobs (job ∷ []) }

reached_waiting : Reachable toy plain waiting
reached_waiting = next _ _ (start (with_jobs []) refl) (
    enqueues 5 request (record { given = []; db = with_jobs [] }) (some job, true)
      (with_jobs (job ∷ [])) enqueued)

reached : Reachable toy plain world
reached =
    next _ _ reached_waiting (claims 6 10 "w1" waiting lease_1 (with_jobs (lease_1 ∷ [])) claimed_1)

at_most_three_claims_example :
    ((i : String) → count_given toy i world.given ≤ 3) × All (JobOk toy) world.db.jobs
at_most_three_claims_example = at_most_three_claims toy plain world reached

claim_fences_example :
    (boundary toy lease_1 (with_jobs (lease_2 ∷ [])) ≡ err (lease_lost lease_1.id))
    × ((later : ℕ) (status : JobStatus) (result : Option Json) (error : String)
        → finish toy later lease_1 status result error (with_jobs (lease_2 ∷ []))
          ≡ err (lease_lost lease_1.id))
claim_fences_example =
    claim_fences toy plain world 20 10 "w2" lease_2 lease_1 (with_jobs (lease_2 ∷ [])) reached
      claimed_2 (inl refl) refl

rows : RowsOk toy (lease_1 ∷ [])
rows = (Reachable-WorldOk toy plain world reached).rows

claim-none-IsSettled_example : All (IsSettled toy 7) (lease_1 ∷ [])
claim-none-IsSettled_example =
    claim-none-IsSettled toy 7 10 "w2" (with_jobs (lease_1 ∷ [])) (with_jobs (lease_1 ∷ [])) rows
      claimed_none

its_own : first (in_organization toy "org" lease_1.id) (lease_1 ∷ []) ≡ some lease_1
unfolding job_id_of stable_id
its_own = refl

abbrev asked : Job toy
asked = asked_to_cancel toy 8 lease_1

asked_ok :
    cancel toy 8 "org" lease_1.id (with_jobs (lease_1 ∷ []))
    ≡ ok (some asked, with_jobs (asked ∷ []))
unfolding cancel job_id_of stable_id
asked_ok = refl

asked_rows : RowsOk toy (asked ∷ [])
asked_rows =
    RowsOk-cancel toy 8 "org" lease_1.id (with_jobs (lease_1 ∷ []))
      (some asked, with_jobs (asked ∷ [])) asked_ok rows

owned-asked : owned toy lease_1 (with_jobs (asked ∷ [])) ≡ ok asked
unfolding owned job_id_of stable_id
owned-asked = refl

retry_forgets_cancel_example :
    (boundary toy lease_1 (with_jobs (asked ∷ [])) ≡ err (job_cancelled lease_1.id))
    × ((n : Job toy) × (first
            (has_id toy asked.id)
            (retry toy 9 lease_1 "OSError: disk" (with_jobs (asked ∷ []))).1.jobs
          ≡ some n)
        × (n.status ≡ retry_wait))
retry_forgets_cancel_example =
    retry_forgets_cancel toy 9 lease_1 asked "OSError: disk" (with_jobs (asked ∷ [])) asked_rows
      owned-asked refl (omega arith)

fresh_id : any (has_id toy (job_id_of toy plain request)) [] ≡ false
fresh_id = refl

-- The parameters in one order, and in another one with `True` for the number 1.
abbrev seeded : Request
seeded = record request { params = field "epochs" (num (pos 2)) (field "seed" (num (pos 1)) end) }

abbrev reordered : Dict
reordered = field "seed" (bool true) (field "epochs" (num (pos 2)) end)

equal_parameters : equal (obj seeded.params) (obj reordered) ≡ true
unfolding equal
equal_parameters = refl

enqueue-again_example :
    (after : JobDb toy) × (enqueue toy plain 5 seeded (with_jobs [])
      ≡ ok ((some (new_job toy plain 5 seeded), true), after))
    × (IsRepeated toy plain seeded "d1" reordered
        → enqueue toy plain 9 (again toy plain seeded "bob" "d1" reordered) after
          ≡ ok ((some (new_job toy plain 5 seeded), false), after))
    × (¬ IsRepeated toy plain seeded "d1" reordered
        → enqueue toy plain 9 (again toy plain seeded "bob" "d1" reordered) after ≡ err key_reused)
enqueue-again_example =
    enqueue-again toy plain 5 9 seeded "bob" "d1" reordered (with_jobs []) refl refl fresh_id

abbrev run : TrainingRun
run = record {
  id = "r1";
  organization_id = "org";
  job_id = job.id;
  status = "running";
  error = "";
  finished_at = none;
}

-- The first worker has lost the lease when its handler fails. Its exception is not caught, and it has
-- marked the training run that the second worker goes on with.
lost_lease_marks :
    settle toy 22 lease_1 (
      invalid "dataset is invalid",
      record { jobs = lease_2 ∷ []; training_runs = run ∷ []; datasets = [] },
    )
    ≡ (
      err (lease_lost job.id),
      record {
        jobs = lease_2 ∷ [];
        training_runs =
            record run { status = "failed"; error = "dataset is invalid"; finished_at = some 22 }
            ∷ [];
        datasets = [];
      },
    )
unfolding on_failure finish owned job_id_of stable_id
lost_lease_marks = refl

abbrev handler : Job toy → JobDb toy → Outcome × JobDb toy
handler j db = (returned null, db)

run_once_releases_example :
    IsOver toy lease_1 (run_once toy handler 6 7 10 "w1" (with_jobs (job ∷ [])))
run_once_releases_example =
    run_once_releases toy handler 6 7 10 "w1" (with_jobs (job ∷ [])) (with_jobs (lease_1 ∷ []))
      lease_1 (Reachable-WorldOk toy plain waiting reached_waiting).rows claimed_1 refl (λ h. cc h)
