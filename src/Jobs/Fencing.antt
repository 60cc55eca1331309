-- ===== src/Jobs/Fencing.antt =====
-- Whatever users and workers do: a job is claimed at most three times, and a claim fences off every
-- worker that had the job before.
use mathlib.Core.Option.{some-injective}
use sat_sa_with_pqc.Base.{
  ℕ, ◌+◌, ◌≤◌, ◌<◌, String, ◌==◌, eq_iff, eq_refl, ◌≡◌, inl, inr, refl, sym, ◌∙◌, subst, ap, Bool,
  true, false, Option, some, List, [], ◌∷◌, err, Bool-cases, Option-cases, All, All-map, arith,
}
use sat_sa_with_pqc.Base.Rows.{first, All-first, first-matches}
use sat_sa_with_pqc.Json.{Json}
use sat_sa_with_pqc.Evidence.Codec.{Codec}
use sat_sa_with_pqc.Jobs.Tables.{JobStatus, Job, JobDb}
use sat_sa_with_pqc.Jobs.Queue.{lease_lost, has_id, claim, same_lease, owned, boundary, finish}
use sat_sa_with_pqc.Jobs.Steps.{
  World, Given, Step, enqueues, cancels, claims, finds_none, finishes, retries, Reachable, start,
  next,
}
use sat_sa_with_pqc.Jobs.Invariant.{
  JobOk, IsFound, RowsOk, RowsOk-claim, RowsOk-finish, RowsOk-retry, RowsOk-cancel, RowsOk-enqueue,
}
use sat_sa_with_pqc.Jobs.Leases.{
  generation_of, generation_in, Grows, Grows-finish, Grows-retry, Grows-cancel, Grows-enqueue,
  Grows-claim-none, IsTaken, claim-IsTaken,
}

module _ (c : Codec) where
  abbrev one_if : Bool → ℕ
  one_if true = 1
  one_if false = 0

  -- How often the job was given out.
  abbrev pub count_given : String → List (Job c) → ℕ
  count_given i [] = 0
  count_given i (g ∷ gs) = one_if (g.id == i) + count_given i gs

  -- The lease is no newer than the row.
  abbrev IsBehind : List (Job c) → Job c → Type 0
  IsBehind jobs g = g.lease_generation ≤ generation_in c g.id jobs

module _ (c : Codec) (sha3_text : String → String) where
  pub record WorldOk (w : World c sha3_text) : Type 0 where
    pub rows : RowsOk c w.db.jobs
    pub well_formed : All (JobOk c) w.given
    pub behind : All (IsBehind c w.db.jobs) w.given
    pub counted : (i : String) → count_given c i w.given ≤ generation_in c i w.db.jobs

  IsBehind-Grows :
      (jobs after gs : List (Job c))
      → Grows c jobs after
      → All (IsBehind c jobs) gs
      → All (IsBehind c after) gs
  IsBehind-Grows jobs after gs grows h =
      All-map (IsBehind c jobs) (IsBehind c after) gs (λ g b. omega (arith, b, grows g.id)) h

  -- A step that gives out nothing.
  WorldOk-Grows :
      (w : World c sha3_text) (db : JobDb c)
      → RowsOk c db.jobs
      → Grows c w.db.jobs db.jobs
      → WorldOk w
      → WorldOk (record w { db = db })
  WorldOk-Grows w db rows grows k = record {
    rows = rows;
    well_formed = k.well_formed;
    behind = IsBehind-Grows w.db.jobs db.jobs w.given grows k.behind;
    counted = λ i. omega (arith, k.counted i, grows i);
  }

  WorldOk-claims :
      (w : World c sha3_text) (db : JobDb c) (job : Job c)
      → IsTaken c w.db db job
      → WorldOk w
      → WorldOk (record w { given = job ∷ w.given; db = db })
  WorldOk-claims w db job t k = record {
    rows = t.rows;
    well_formed = (t.well_formed, k.well_formed);
    behind = (
      omega (arith, ap (generation_of c) t.found),
      IsBehind-Grows w.db.jobs db.jobs w.given t.grows k.behind,
    );
    counted = λ i. elim (Bool-cases (job.id == i)) [
      | inl mine ↦
          let same : job.id ≡ i = ground (arith, mine, eq_iff job.id i) in
          subst (λ i. count_given c i (job ∷ w.given) ≤ generation_in c i db.jobs) same
            (omega (
              arith,
              k.counted job.id,
              t.higher,
              ap (generation_of c) t.found,
              ap (one_if c) (eq_refl job.id),
            ))
      | inr other ↦ omega (arith, k.counted i, t.grows i, ap (one_if c) other)
    ];
  }

  Given-JobOk :
      (job : Job c) (gs : List (Job c)) → Given c sha3_text job gs → All (JobOk c) gs → JobOk c job
  Given-JobOk job [] g h = elim g [ ]
  Given-JobOk job (x ∷ xs) (inl same) (h, hs) = subst (JobOk c) same h
  Given-JobOk job (x ∷ xs) (inr later) (h, hs) = Given-JobOk job xs later hs

  Step-WorldOk : (v w : World c sha3_text) → Step c sha3_text v w → WorldOk v → WorldOk w
  Step-WorldOk _ _ (enqueues now r v row db h) k =
      WorldOk-Grows v db (RowsOk-enqueue c sha3_text now r v.db (row, db) h k.rows)
        (Grows-enqueue c sha3_text now r v.db (row, db) h) k
  Step-WorldOk _ _ (cancels now org job_id v row db h) k =
      WorldOk-Grows v db (RowsOk-cancel c now org job_id v.db (row, db) h k.rows)
        (Grows-cancel c now org job_id v.db (row, db) h k.rows) k
  Step-WorldOk _ _ (claims now lease_seconds worker_id v job db h) k =
      WorldOk-claims v db job (claim-IsTaken c now lease_seconds worker_id v.db db job h k.rows) k
  Step-WorldOk _ _ (finds_none now lease_seconds worker_id v db h) k =
      WorldOk-Grows v db
        (subst (λ (p : Option (Job c) × JobDb c). RowsOk c p.1.jobs) h
          (RowsOk-claim c now lease_seconds worker_id v.db k.rows))
        (Grows-claim-none c now lease_seconds worker_id v.db db h k.rows) k
  Step-WorldOk _ _ (finishes now job status result error v db g f h) k =
      WorldOk-Grows v db (RowsOk-finish c now job status result error v.db db f h k.rows)
        (Grows-finish c now job status result error v.db db h k.rows) k
  Step-WorldOk _ _ (retries now job error v status db g h) k =
      let well_formed = Given-JobOk job v.given g k.well_formed in
      WorldOk-Grows v db
        (subst (λ (p : JobStatus × JobDb c). RowsOk c p.1.jobs) h
          (RowsOk-retry c now job error v.db well_formed k.rows))
        (subst (λ (p : JobStatus × JobDb c). Grows c v.db.jobs p.1.jobs) h
          (Grows-retry c now job error v.db k.rows))
        k

  pub Reachable-WorldOk : (w : World c sha3_text) → Reachable c sha3_text w → WorldOk w
  Reachable-WorldOk _ (start db empty) = record {
    rows = rw empty (record { each = tt; found = tt });
    well_formed = tt;
    behind = tt;
    counted = λ i. omega arith;
  }
  Reachable-WorldOk _ (next v w r s) = Step-WorldOk v w s (Reachable-WorldOk v r)

  generation_bounded :
      (i : String) (jobs : List (Job c)) → RowsOk c jobs → generation_in c i jobs ≤ 3
  generation_bounded i jobs k = elim (Option-cases (first (has_id c i) jobs)) [
    | inl nobody ↦ omega (arith, ap (generation_of c) nobody)
    | inr (j, found) ↦
        let each = All-first (JobOk c) (has_id c i) jobs j k.each found in
        omega (arith, ap (generation_of c) found, each.generation, each.bounded)
  ]

  -- In every history of the queue, whatever its users and workers do, a job is given out at most three
  -- times, and every row is in order: a waiting job has attempts left, a job that is held has a lease
  -- that expires, and exactly the completed, failed and cancelled ones have a time of completion.
  pub at_most_three_claims :
      (w : World c sha3_text)
      → Reachable c sha3_text w
      → ((i : String) → count_given c i w.given ≤ 3) × All (JobOk c) w.db.jobs
  at_most_three_claims w r =
      let k = Reachable-WorldOk w r in
      ((λ i. omega (arith, k.counted i, generation_bounded i w.db.jobs k.rows)), k.rows.each)

  -- A lease of a lower generation than the row of its job is lost.
  fenced :
      (g job : Job c) (db : JobDb c)
      → RowsOk c db.jobs
      → IsFound c db.jobs job
      → g.id ≡ job.id
      → g.lease_generation < job.lease_generation
      → owned c g db ≡ err (lease_lost g.id)
  unfolding owned
  fenced g job db rows found same less = elim (Option-cases (first (same_lease c g) db.jobs)) [
    | inl nobody ↦ rw nobody refl
    | inr (row, e) ↦
        let hit = first-matches (same_lease c g) db.jobs row e in
        let its_id : row.id ≡ job.id = ground (arith, hit, eq_iff row.id g.id, same) in
        let its_generation : row.lease_generation ≡ g.lease_generation = ground (arith, hit) in
        let own = All-first (IsFound c db.jobs) (same_lease c g) db.jobs row rows.found e in
        let it : row ≡ job =
          some-injective row job (sym own ∙ ap (λ i. first (has_id c i) db.jobs) its_id ∙ found) in
        let no : ⊥ =
          omega (arith, less, its_generation, ap (λ (x : Job c). x.lease_generation) it) in
        elim no [ ]
  ]

  Given-IsBehind :
      (jobs gs : List (Job c)) (g : Job c)
      → Given c sha3_text g gs
      → All (IsBehind c jobs) gs
      → IsBehind c jobs g
  Given-IsBehind jobs [] g m h = elim m [ ]
  Given-IsBehind jobs (x ∷ xs) g (inl same) (h, hs) = subst (IsBehind c jobs) same h
  Given-IsBehind jobs (x ∷ xs) g (inr later) (h, hs) = Given-IsBehind jobs xs g later hs

  -- In every history of the queue, when a worker claims a job that was given out before, every earlier
  -- holder of it has lost its lease: neither the next boundary nor a report of a result succeeds.
  pub claim_fences :
      (w : World c sha3_text) (now lease_seconds : ℕ) (worker_id : String) (job old : Job c)
      (db : JobDb c)
      → Reachable c sha3_text w
      → claim c now lease_seconds worker_id w.db ≡ (some job, db)
      → Given c sha3_text old w.given
      → old.id ≡ job.id
      → (boundary c old db ≡ err (lease_lost old.id))
        × ((later : ℕ) (status : JobStatus) (result : Option Json) (error : String)
            → finish c later old status result error db ≡ err (lease_lost old.id))
  unfolding boundary finish
  claim_fences w now lease_seconds worker_id job old db r h given same =
      let k = Reachable-WorldOk w r in
      let t = claim-IsTaken c now lease_seconds worker_id w.db db job h k.rows in
      let behind = Given-IsBehind w.db.jobs w.given old given k.behind in
      let higher : generation_in c old.id w.db.jobs < job.lease_generation =
        subst (λ i. generation_in c i w.db.jobs < job.lease_generation) (sym same) t.higher in
      let lost = fenced old job db t.rows t.found same (omega (arith, behind, higher)) in
      (rw lost refl, λ later status result error. rw lost refl)
