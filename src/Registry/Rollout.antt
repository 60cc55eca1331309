-- ===== src/Registry/Rollout.antt =====
-- A deployment or a rollback replaces the active deployment by a verified, approved model.
use sat_sa_with_pqc.Base.{
  if_true, if_false, String, ◌==◌, eq_iff, ◌≡◌, ◌≢◌, inl, inr, refl, sym, ◌∙◌, subst, true, not,
  ◌&&◌, Option, none, some, List, [], ◌∷◌, ◌++◌, Result, ok, err, same_value, >>=-eq-ok, raise_if,
  or_raise, Bool-cases, All, All-append, arith,
}
use sat_sa_with_pqc.Base.Int.{ℤ}
use sat_sa_with_pqc.Evidence.Codec.{Codec}
use sat_sa_with_pqc.Registry.Artifact.{Artifact}
use sat_sa_with_pqc.Registry.Tables.{
  ModelState, registered, quarantined, verified, approved, retired, Kind, rollback_kind, Deployment,
  is_state, Model, Db, find_model, find_active, deactivated, deactivate, find_deployment,
}
use sat_sa_with_pqc.Registry.Lifecycle.{
  RegistryError, not_approved, no_longer_approved, duplicate_key, nothing_to_roll_back,
  already_active, target_not_approved, get_model, serves,
}
use sat_sa_with_pqc.Registry.Deploy.{
  VerifyError, replaced, new_deployment, replace_active, deploy, verify_artifact, or_reported,
  rollback, rollback_target, is_fresh,
}
use sat_sa_with_pqc.Registry.Invariant.{OneActive-replaced, find_active-replaced}
use sat_sa_with_pqc.Registry.Governance.{find_model-is_model, IsServed, IsGoverned, IfActive}

module _ (c : Codec) (sha3_text : String → String) (repr : ℤ → String) where
  -- The model, read from the database, serves the name.
  abbrev pub Serves : String → String → Db c → String → Type 0
  Serves org model_name db model_id =
      (d : Deployment) × (find_active org model_name db.deployments ≡ some d)
      × (d.model_id ≡ model_id)

  Served : List (Model c) → Deployment → Type 0
  Served ms = IfActive c sha3_text repr (IsServed c sha3_text repr ms)

  Served-deactivated :
      (ms : List (Model c)) (now : ℤ) (org i : String) (d : Deployment)
      → Served ms d
      → Served ms (deactivated now org i d)
  unfolding Served
  Served-deactivated ms now org i d h =
      elim (Bool-cases (d.organization_id == org && d.id == i && d.active)) [
        | inl it ↦ rw it (λ active. cc)
        | inr other ↦ rw other h
      ]

  Served-deactivate :
      (ms : List (Model c)) (now : ℤ) (org i : String) (ds : List Deployment)
      → All (Served ms) ds
      → All (Served ms) (deactivate now org i ds)
  unfolding deactivate
  Served-deactivate ms now org i [] h = tt
  Served-deactivate ms now org i (d ∷ ds) (h, hs) =
      (Served-deactivated ms now org i d h, Served-deactivate ms now org i ds hs)

  Served-replaced :
      (ms : List (Model c)) (now : ℤ) (org : String) (current : Option Deployment)
      (ds : List Deployment)
      → All (Served ms) ds
      → All (Served ms) (replaced now org current ds)
  Served-replaced ms now org none ds h = h
  Served-replaced ms now org (some d) ds h = Served-deactivate ms now org d.id ds h

  served_by :
      (o : Option Deployment) (i : String)
      → serves o i ≡ true
      → (d : Deployment) × (o ≡ some d) × (d.model_id ≡ i)
  served_by none i h = cc
  served_by (some d) i h = (d, refl, ground (arith, eq_iff d.model_id i))

  -- The database after the rows were written.
  written :
      (org model_id : String) (m : Model c) (now : ℤ) (db : Db c) (new : Deployment)
      → find_model c new.organization_id new.model_id db.models ≡ some m
      → m.state ≡ approved
      → m.name ≡ new.model_name
      → IsGoverned c sha3_text repr db
      → IsGoverned c sha3_text repr (record db {
        deployments =
            replaced now new.organization_id
              (find_active new.organization_id new.model_name db.deployments)
              db.deployments
            ++ new ∷ [];
      })
  unfolding Served
  written org model_id m now db new found state name g = record {
    one_active = OneActive-replaced now db.deployments new g.one_active;
    served =
        All-append (Served db.models) _ (new ∷ [])
          (Served-replaced db.models now new.organization_id
            (find_active new.organization_id new.model_name db.deployments) db.deployments g.served)
          ((λ active. (m, found, state, name)), tt);
  }

  Rolled : String → String → String → Db c → Option Deployment × Db c → Type 0
  Rolled org model_name model_id db r =
      IsGoverned c sha3_text repr r.1
      × (r.1.models ≡ db.models)
      × Serves org model_name r.1 model_id

  -- What the writing part of a deployment does.
  replace_active-IsGoverned :
      (org model_id : String) (m : Model c) (kind : Kind) (user_id reason : String) (now : ℤ)
      (db : Db c) (r : Option Deployment × Db c)
      → find_model c org model_id db.models ≡ some m
      → m.state ≡ approved
      → replace_active c sha3_text repr org m.name model_id kind user_id reason now db ≡ ok r
      → IsGoverned c sha3_text repr db
      → IsGoverned c sha3_text repr r.1 × (r.1.models ≡ db.models) × Serves org m.name r.1 model_id
  unfolding replace_active Rolled
  replace_active-IsGoverned org model_id m kind user_id reason now db r found state h g =
      let current = find_active org m.name db.deployments in
      let new =
        new_deployment c sha3_text repr org m.name model_id kind user_id reason now current in
      let rows = replaced now org current db.deployments ++ new ∷ [] in
      elim (Bool-cases (serves current model_id)) [
        | inl serving ↦
            let same : _ ≡ r =
              same_value (ok (current, db)) refl (if_true (ok (current, db)) _ serving ∙ h) in
            subst (Rolled org m.name model_id db) same (g, refl, served_by current model_id serving)
        | inr other ↦ elim (Bool-cases (is_fresh (find_deployment new.id db.deployments))) [
          | inl fresh ↦
              let after : Db c = record db { deployments = rows } in
              let result : Result RegistryError (Option Deployment × Db c) =
                ok (find_deployment new.id rows, after) in
              let same : _ ≡ r =
                same_value result refl
                  (if_true result _ fresh ∙ if_false (ok (current, db)) _ other ∙ h) in
              subst (Rolled org m.name model_id db) same (
                written org model_id m now db new found state refl g,
                refl,
                (new, find_active-replaced now db.deployments new g.one_active refl, refl),
              )
          | inr taken ↦
              let refused : Result RegistryError (Option Deployment × Db c) = err duplicate_key in
              let no : refused ≡ ok r =
                if_false (ok (find_deployment new.id rows, record db { deployments = rows }))
                  refused taken
                ∙ if_false (ok (current, db)) _ other
                ∙ h in
              cc no
        ]
      ]

  or_reported-ok : {A : Type 0} (v : Result VerifyError A) (a : A) → or_reported v ≡ ok a → v ≡ ok a
  or_reported-ok (ok b) a h = cc h
  or_reported-ok (err e) a h = cc h

  approved_only :
      (s : ModelState) (e : RegistryError) (u : Unit {0})
      → raise_if (not (is_state s approved)) e ≡ ok u
      → s ≡ approved
  approved_only approved e u h = refl
  approved_only registered e u h = cc h
  approved_only verified e u h = cc h
  approved_only quarantined e u h = cc h
  approved_only retired e u h = cc h

  -- A deployment that succeeds keeps the registry governed. The model is approved, its stored artifact
  -- passed the verification, and it serves its name afterwards; no model changes.
  pub deploy-IsGoverned :
      (org model_id user_id : String) (kind : Kind) (reason : String) (now : ℤ) (db : Db c)
      (r : Option Deployment × Db c)
      → deploy c sha3_text repr org model_id user_id kind reason now db ≡ ok r
      → IsGoverned c sha3_text repr db
      → IsGoverned c sha3_text repr r.1
        × (r.1.models ≡ db.models)
        × ((m : Model c) × (find_model c org model_id db.models ≡ some m)
            × (m.state ≡ approved)
            × ((a : Artifact) × (verify_artifact c sha3_text repr m db ≡ ok a))
            × Serves org m.name r.1 model_id)
  unfolding deploy get_model Rolled
  deploy-IsGoverned org model_id user_id kind reason now db r h g =
      let (m, got, h1) = >>=-eq-ok (get_model c org model_id db) _ h in
      let (_, is_approved, h2) =
        >>=-eq-ok (raise_if (not (is_state m.state approved)) (not_approved m.state)) _ h1 in
      let (a, checked, h3) = >>=-eq-ok (or_reported (verify_artifact c sha3_text repr m db)) _ h2 in
      let (n, again, h4) =
        >>=-eq-ok (or_raise (find_model c org model_id db.models) no_longer_approved) _ h3 in
      let (_, still, h5) =
        >>=-eq-ok (raise_if (not (is_state n.state approved)) no_longer_approved) _ h4 in
      let found : find_model c org model_id db.models ≡ some m = ground (arith, got) in
      let state : m.state ≡ approved = approved_only m.state _ _ is_approved in
      let (governed, models, serving) =
        replace_active-IsGoverned org model_id m kind user_id reason now db r found state h5 g in
      (governed, models, (m, found, state, (a, or_reported-ok _ a checked), serving))

  -- A rollback that succeeds keeps the registry governed: another model than the one that was active,
  -- which is approved too, serves its own name afterwards, and no model changes.
  pub rollback-IsGoverned :
      (org user_id : String) (target : Option String) (reason model_name : String) (now : ℤ)
      (db : Db c) (r : Option Deployment × Db c)
      → rollback c sha3_text repr org user_id target reason model_name now db ≡ ok r
      → IsGoverned c sha3_text repr db
      → IsGoverned c sha3_text repr r.1
        × (r.1.models ≡ db.models)
        × ((old : Deployment) × (m : Model c) × (find_active org model_name db.deployments
              ≡ some old)
            × (m.id ≢ old.model_id)
            × (m.state ≡ approved)
            × Serves org m.name r.1 m.id)
  unfolding rollback get_model
  rollback-IsGoverned org user_id target reason model_name now db r h g =
      let (old, current, h1) =
        >>=-eq-ok (or_raise (find_active org model_name db.deployments) nothing_to_roll_back) _ h in
      let (target_id, _, h2) =
        >>=-eq-ok (rollback_target c sha3_text repr org model_name target old db) _ h1 in
      let (t, got, h3) = >>=-eq-ok (get_model c org target_id db) _ h2 in
      let (_, another, h4) = >>=-eq-ok (raise_if (t.id == old.model_id) already_active) _ h3 in
      let (_, _, h5) =
        >>=-eq-ok (raise_if (not (is_state t.state approved)) (target_not_approved t.state)) _ h4 in
      let (governed, models, (m, found, state, _, serving)) =
        deploy-IsGoverned org t.id user_id rollback_kind reason now db r h5 g in
      let its_id : m.id ≡ t.id =
        (find_model-is_model c sha3_text repr org t.id db.models m found).1 in
      (
        governed,
        models,
        (
          old,
          m,
          ground (arith, current),
          ground (arith, another, its_id, eq_iff t.id old.model_id),
          state,
          subst (Serves org m.name r.1) (sym its_id) serving,
        ),
      )
