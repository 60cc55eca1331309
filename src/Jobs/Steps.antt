-- ===== src/Jobs/Steps.antt =====
-- The queue as a step relation: the requests of users, the claims of workers, and what workers report
-- with the row that a claim gave them.
use sat_sa_with_pqc.Base.{
  ◌⊎◌, ℕ, String, ◌≡◌, Bool, true, false, Option, none, some, List, [], ◌∷◌, ok,
}
use sat_sa_with_pqc.Json.{Json}
use sat_sa_with_pqc.Evidence.Codec.{Codec}
use sat_sa_with_pqc.Jobs.Tables.{JobStatus, completed, failed, cancelled, Job, JobDb}
use sat_sa_with_pqc.Jobs.Queue.{claim, finish, retry}
use sat_sa_with_pqc.Jobs.Requests.{Request, enqueue, cancel}

abbrev pub is_final : JobStatus → Bool
is_final completed = true
is_final failed = true
is_final cancelled = true
is_final _ = false

module _ (c : Codec) (sha3_text : String → String) where
  -- The jobs that claims gave out so far, and the database.
  pub record World : Type 0 where
    pub given : List (Job c)
    pub db : JobDb c

  abbrev pub Given : Job c → List (Job c) → Type 0
  Given job [] = ⊥
  Given job (g ∷ gs) = (g ≡ job) ⊎ Given job gs

  pub data Step : World → World → Type 0 where
    enqueues :
        (now : ℕ) (r : Request) (w : World) (row : Option (Job c) × Bool) (db : JobDb c)
        → enqueue c sha3_text now r w.db ≡ ok (row, db)
        → Step w (record w { db = db })
    cancels :
        (now : ℕ) (org job_id : String) (w : World) (row : Option (Job c)) (db : JobDb c)
        → cancel c now org job_id w.db ≡ ok (row, db)
        → Step w (record w { db = db })
    claims :
        (now lease_seconds : ℕ) (worker_id : String) (w : World) (job : Job c) (db : JobDb c)
        → claim c now lease_seconds worker_id w.db ≡ (some job, db)
        → Step w (record { given = job ∷ w.given; db = db })
    finds_none :
        (now lease_seconds : ℕ) (worker_id : String) (w : World) (db : JobDb c)
        → claim c now lease_seconds worker_id w.db ≡ (none, db)
        → Step w (record w { db = db })
    finishes :
        (now : ℕ) (job : Job c) (status : JobStatus) (result : Option Json) (error : String)
        (w : World) (db : JobDb c)
        → Given job w.given
        → is_final status ≡ true
        → finish c now job status result error w.db ≡ ok db
        → Step w (record w { db = db })
    retries :
        (now : ℕ) (job : Job c) (error : String) (w : World) (status : JobStatus) (db : JobDb c)
        → Given job w.given
        → retry c now job error w.db ≡ (status, db)
        → Step w (record w { db = db })

  pub data Reachable : World → Type 0 where
    start : (db : JobDb c) → db.jobs ≡ [] → Reachable (record { given = []; db = db })
    next : (v w : World) → Reachable v → Step v w → Reachable w
