-- ===== src/Registry/Governance.antt =====
-- What is deployed is approved: every operation of the registry keeps it.
use mathlib.Core.Option.{some-injective}
use sat_sa_with_pqc.Base.{
  All-always, String, ◌==◌, eq_iff, eq_refl, ◌≡◌, ◌≢◌, ◌⊎◌, inl, inr, refl, sym, ◌∙◌, subst, ap,
  true, false, not, some, List, [], ◌∷◌, ok, same_value, >>=-eq-ok, raise_if, or_raise, Bool-cases,
  All, All-map, All-both, arith,
}
use sat_sa_with_pqc.Base.Int.{ℤ}
use sat_sa_with_pqc.Evidence.Codec.{Codec}
use sat_sa_with_pqc.Registry.Tables.{
  ModelState, verified, approved, retired, find_requester, strip, Deployment, Model, Db, is_model,
  with_state, find_model, set_state, is_active_for, find_active,
}
use sat_sa_with_pqc.Registry.Lifecycle.{
  requested_by, needs_justification, own_training, needs_reason, model_not_found, cannot_move,
  get_model, serves, add_event, transition, approve, check_retirable, retire, may_move,
}
use sat_sa_with_pqc.Registry.Invariant.{OneActive, IsFound, All-IsFound}

module _ (c : Codec) (sha3_text : String → String) (repr : ℤ → String) where
  -- A row of the models with the deployment's model, name and organization, which is approved.
  abbrev pub IsServed : List (Model c) → Deployment → Type 0
  IsServed ms d =
      (m : Model c) × (find_model c d.organization_id d.model_id ms ≡ some m)
      × (m.state ≡ approved)
      × (m.name ≡ d.model_name)

  -- Of every name at most one deployment is active, and the model of each active one is approved.
  pub record IsGoverned (db : Db c) : Type 0 where
    pub one_active : OneActive db.deployments
    pub served : All (λ d. d.active ≡ true → IsServed db.models d) db.deployments

  is_model-with_state :
      (o i org model_id : String) (target : ModelState) (x : Model c)
      → is_model c o i (with_state c org model_id target x) ≡ is_model c o i x
  is_model-with_state o i org model_id target x = elim (Bool-cases (is_model c org model_id x)) [
    | inl it ↦ rw it refl
    | inr other ↦ rw other refl
  ]

  pub find_model-set_state :
      (o i org model_id : String) (target : ModelState) (ms : List (Model c)) (m : Model c)
      → find_model c o i ms ≡ some m
      → find_model c o i (set_state c org model_id target ms)
        ≡ some (with_state c org model_id target m)
  find_model-set_state o i org model_id target [] m h = cc
  find_model-set_state o i org model_id target (x ∷ xs) m h = elim (Bool-cases (is_model c o i x)) [
    | inl here ↦
        let same : x ≡ m = ground (arith, here, h) in
        rw (is_model-with_state o i org model_id target x, here)
          (ap (λ y. some (with_state c org model_id target y)) same)
    | inr other ↦
        rw (is_model-with_state o i org model_id target x, other)
          (find_model-set_state o i org model_id target xs m (ground (arith, other, h)))
  ]

  pub find_model-is_model :
      (o i : String) (ms : List (Model c)) (m : Model c)
      → find_model c o i ms ≡ some m
      → (m.organization_id ≡ o) × (m.id ≡ i)
  find_model-is_model o i [] m h = cc
  find_model-is_model o i (x ∷ xs) m h = elim (Bool-cases (is_model c o i x)) [
    | inl here ↦
        let same : x ≡ m = ground (arith, here, h) in
        subst (λ (y : Model c). (y.organization_id ≡ o) × (y.id ≡ i)) same
          (ground (arith, here, eq_iff x.organization_id o, eq_iff x.id i))
    | inr other ↦ find_model-is_model o i xs m (ground (arith, other, h))
  ]

  -- What a successful move does.
  pub transition_inv :
      (org model_id : String) (target : ModelState) (user_id reason : String) (now : ℤ) (db : Db c)
      (r : Model c × Db c)
      → transition c sha3_text repr org model_id target user_id reason now db ≡ ok r
      → (m : Model c) × (find_model c org model_id db.models ≡ some m)
        × (may_move m.state target ≡ true)
        × (r.1.models ≡ set_state c org model_id target db.models)
        × (r.1.deployments ≡ db.deployments)
  unfolding transition get_model
  transition_inv org model_id target user_id reason now db r h =
      let (m, found, h1) =
        >>=-eq-ok (or_raise (find_model c org model_id db.models) model_not_found) _ h in
      let (_, moves, h2) =
        >>=-eq-ok (raise_if (not (may_move m.state target)) (cannot_move m.state target)) _ h1 in
      let (events, _, h3) =
        >>=-eq-ok
          (add_event c sha3_text repr org model_id (some m.state) target user_id reason now
            db.events)
          _ h2 in
      let (moved, _, h4) =
        >>=-eq-ok
          (or_raise (find_model c org model_id (set_state c org model_id target db.models))
            model_not_found)
          _ h3 in
      let same : _ ≡ r = same_value _ refl h4 in
      (
        m,
        ground (arith, found),
        ground (arith, moves),
        ap (λ (p : Model c × Db c). p.1.models) (sym same),
        ap (λ (p : Model c × Db c). p.1.deployments) (sym same),
      )

  -- A row that is served stays so when a model moves to a state, if that state is approved or the
  -- model is another one.
  IsServed-set_state :
      (org model_id : String) (target : ModelState) (ms : List (Model c)) (d : Deployment)
      → (target ≡ approved) ⊎ ¬ ((d.organization_id ≡ org) × (d.model_id ≡ model_id))
      → IsServed ms d
      → IsServed (set_state c org model_id target ms) d
  IsServed-set_state org model_id target ms d kept (m, found, state, name) =
      let ids = find_model-is_model d.organization_id d.model_id ms m found in
      let now_found =
        find_model-set_state d.organization_id d.model_id org model_id target ms m found in
      elim (Bool-cases (is_model c org model_id m)) [
        | inl moved ↦ elim kept [
          | inl e ↦ (record m { state = target }, now_found ∙ ap some (rw moved refl), e, name)
          | inr other ↦
              elim (other (
                ground (arith, moved, ids, eq_iff m.organization_id org, eq_iff m.id model_id))) [ ]
        ]
        | inr other ↦ (m, now_found ∙ ap some (rw other refl), state, name)
      ]

  abbrev Kept : String → String → ModelState → Deployment → Type 0
  Kept org model_id target d =
      (target ≡ approved) ⊎ ¬ ((d.organization_id ≡ org) × (d.model_id ≡ model_id))

  abbrev pub IfActive : (Deployment → Type 0) → Deployment → Type 0
  IfActive P d = d.active ≡ true → P d

  IsGoverned-moved :
      (org model_id : String) (target : ModelState) (db after : Db c)
      → after.models ≡ set_state c org model_id target db.models
      → after.deployments ≡ db.deployments
      → All (IfActive (Kept org model_id target)) db.deployments
      → IsGoverned db
      → IsGoverned after
  IsGoverned-moved org model_id target db after models rows kept g =
      let both =
        All-both (IfActive (Kept org model_id target)) (IfActive (IsServed db.models))
          db.deployments kept g.served in
      let moved = set_state c org model_id target db.models in
      let served : All (IfActive (IsServed moved)) db.deployments =
        All-map (λ d. IfActive (Kept org model_id target) d × IfActive (IsServed db.models) d)
          (IfActive (IsServed moved)) db.deployments
          (λ d h active.
            IsServed-set_state org model_id target db.models d (h.0 active) (h.1 active))
          both in
      record {
        one_active = subst OneActive (sym rows) g.one_active;
        served =
            subst (λ ds. All (IfActive (IsServed after.models)) ds) (sym rows)
              (subst (λ ms. All (IfActive (IsServed ms)) db.deployments) (sym models) served);
      }

  approve_inv :
      (org model_id user_id justification : String) (now : ℤ) (db : Db c) (r : Model c × Db c)
      → approve c sha3_text repr org model_id user_id justification now db ≡ ok r
      → (m : Model c) × (get_model c org model_id db ≡ ok m)
        × (requested_by (find_requester org m.training_run_id db.training_runs) user_id ≡ false)
        × (transition c sha3_text repr org model_id approved user_id (strip justification) now db
            ≡ ok r)
  unfolding approve
  approve_inv org model_id user_id justification now db r h =
      let (_, _, h1) = >>=-eq-ok (raise_if (strip justification == "") needs_justification) _ h in
      let (m, found, h2) = >>=-eq-ok (get_model c org model_id db) _ h1 in
      let (_, foreign, h3) =
        >>=-eq-ok
          (raise_if (requested_by (find_requester org m.training_run_id db.training_runs) user_id)
            own_training)
          _ h2 in
      (m, found, ground (arith, foreign), h3)

  -- An approval that succeeds keeps the registry governed, and it is by four eyes: the user who
  -- approves is not the one who requested the training, if one is recorded, the model was verified,
  -- and the only change to the models is its new state.
  pub approve-IsGoverned :
      (org model_id user_id justification : String) (now : ℤ) (db : Db c) (r : Model c × Db c)
      → approve c sha3_text repr org model_id user_id justification now db ≡ ok r
      → IsGoverned db
      → IsGoverned r.1
        × (r.1.models ≡ set_state c org model_id approved db.models)
        × ((m : Model c) × (find_model c org model_id db.models ≡ some m)
            × (m.state ≡ verified)
            × (find_requester org m.training_run_id db.training_runs ≢ some user_id))
  unfolding get_model
  approve-IsGoverned org model_id user_id justification now db r h g =
      let (m, found, foreign, h1) = approve_inv org model_id user_id justification now db r h in
      let (n, found_n, moves, models, rows) =
        transition_inv org model_id approved user_id (strip justification) now db r h1 in
      let same : n ≡ m = ground (arith, found, found_n) in
      let was_verified : n.state ≡ verified = ground (arith, moves) in
      (
        IsGoverned-moved org model_id approved db r.1 models rows
            (All-always (IfActive (Kept org model_id approved)) db.deployments
              (λ d active. inl refl))
            g,
        models,
        (
          m,
          found_n ∙ ap some same,
          subst (λ (x : Model c). x.state ≡ verified) same was_verified,
          ground (arith, foreign, eq_refl user_id),
        ),
      )

  -- What the checks of `retire` exclude.
  not_served :
      (org model_id reason : String) (db : Db c) (m : Model c)
      → check_retirable c sha3_text repr org model_id reason db ≡ ok tt
      → find_model c org model_id db.models ≡ some m
      → serves (find_active org m.name db.deployments) model_id ≡ false
  unfolding check_retirable get_model
  not_served org model_id reason db m h found =
      let (_, _, h1) = >>=-eq-ok (raise_if (strip reason == "") needs_reason) _ h in
      let (n, got, h2) =
        >>=-eq-ok (or_raise (find_model c org model_id db.models) model_not_found) _ h1 in
      let same : n ≡ m = ground (arith, got, found) in
      let free : serves (find_active org n.name db.deployments) model_id ≡ false =
        ground (arith, h2) in
      subst (λ (x : Model c). serves (find_active org x.name db.deployments) model_id ≡ false) same
        free

  -- An active deployment of a model that passes the checks is not there.
  unserved :
      (org model_id reason : String) (db : Db c) (m : Model c) (d : Deployment)
      → serves (find_active org m.name db.deployments) model_id ≡ false
      → find_model c org model_id db.models ≡ some m
      → (is_active_for d.organization_id d.model_name d ≡ true
          → find_active d.organization_id d.model_name db.deployments ≡ some d)
      → IsServed db.models d
      → d.active ≡ true
      → ¬ ((d.organization_id ≡ org) × (d.model_id ≡ model_id))
  unserved org model_id reason db m d free found unique (n, found_n, state, name) active (e, f) =
      let here : find_active d.organization_id d.model_name db.deployments ≡ some d =
        unique (rw (eq_refl d.organization_id, eq_refl d.model_name) active) in
      let same : n ≡ m = some-injective n m (
        sym found_n
        ∙ ap (λ o. find_model c o d.model_id db.models) e
        ∙ ap (λ i. find_model c org i db.models) f
        ∙ found) in
      let its_name : d.model_name ≡ m.name = sym name ∙ ap (λ (x : Model c). x.name) same in
      let there : find_active org m.name db.deployments ≡ some d =
        ap (λ o. find_active o m.name db.deployments) (sym e)
        ∙ ap (λ n. find_active d.organization_id n db.deployments) (sym its_name)
        ∙ here in
      let free_d : serves (some d) model_id ≡ false =
        subst (λ o. serves o model_id ≡ false) there free in
      ground (arith, free_d, f, eq_iff d.model_id model_id)

  abbrev Other : String → String → Deployment → Type 0
  Other org model_id d = ¬ ((d.organization_id ≡ org) × (d.model_id ≡ model_id))

  All-Other :
      (org model_id reason : String) (db : Db c) (m : Model c)
      → serves (find_active org m.name db.deployments) model_id ≡ false
      → find_model c org model_id db.models ≡ some m
      → IsGoverned db
      → All (IfActive (Other org model_id)) db.deployments
  All-Other org model_id reason db m free found g =
      let unique = All-IsFound db.deployments g.one_active in
      let both =
        All-both (IsFound db.deployments) (IfActive (IsServed db.models)) db.deployments unique
          g.served in
      All-map (λ d. IsFound db.deployments d × IfActive (IsServed db.models) d)
        (IfActive (Other org model_id)) db.deployments
        (λ d h active. unserved org model_id reason db m d free found h.0 (h.1 active) active) both

  -- A retirement that succeeds keeps the registry governed: the model had no active deployment, it is
  -- retired afterwards, and no deployment changes.
  pub retire-IsGoverned :
      (org model_id user_id reason : String) (now : ℤ) (db : Db c) (r : Model c × Db c)
      → retire c sha3_text repr org model_id user_id reason now db ≡ ok r
      → IsGoverned db
      → IsGoverned r.1
        × (r.1.models ≡ set_state c org model_id retired db.models)
        × (r.1.deployments ≡ db.deployments)
        × All
            (λ d. d.active ≡ true → ¬ ((d.organization_id ≡ org) × (d.model_id ≡ model_id)))
            r.1.deployments
  unfolding retire
  retire-IsGoverned org model_id user_id reason now db r h g =
      let (_, checked, h1) =
        >>=-eq-ok (check_retirable c sha3_text repr org model_id reason db) _ h in
      let (m, found, moves, models, rows) =
        transition_inv org model_id retired user_id (strip reason) now db r h1 in
      let free = not_served org model_id reason db m checked found in
      let none_active = All-Other org model_id reason db m free found g in
      let kept : All (IfActive (Kept org model_id retired)) db.deployments =
        All-map (IfActive (Other org model_id)) (IfActive (Kept org model_id retired))
          db.deployments (λ d other active. inr (other active)) none_active in
      (
        IsGoverned-moved org model_id retired db r.1 models rows kept g,
        models,
        rows,
        subst (λ ds. All (IfActive (Other org model_id)) ds) (sym rows) none_active,
      )
