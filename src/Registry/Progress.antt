-- ===== src/Registry/Progress.antt =====
-- When a deployment and an approval succeed: the guards of the code are the only obstacles.
use sat_sa_with_pqc.Base.{
  String, ◌≡◌, refl, ap, Bool, true, false, Option, none, some, Result, ok, if◌then◌else◌,
}
use sat_sa_with_pqc.Base.Int.{ℤ}
use sat_sa_with_pqc.Evidence.Codec.{Codec}
use sat_sa_with_pqc.Registry.Artifact.{Artifact}
use sat_sa_with_pqc.Registry.Tables.{
  approved, Kind, Deployment, is_state, Model, Db, find_model, find_active, find_deployment,
}
use sat_sa_with_pqc.Registry.Lifecycle.{RegistryError, get_model, serves}
use sat_sa_with_pqc.Registry.Deploy.{
  is_fresh, deployment_id, verify_artifact, replace_active, deploy,
}

abbrev pub IsOk : {A : Type 0} → Result RegistryError A → Type 0
IsOk {A} r = (a : A) × (r ≡ ok a)

IsOk-either :
    {A : Type 0} (b : Bool) (x y : Result RegistryError A)
    → IsOk x
    → IsOk y
    → IsOk (if b then x else y)
IsOk-either true x y h k = h
IsOk-either false x y h k = k

IsOk-else :
    {A : Type 0} (b : Bool) (x y : Result RegistryError A)
    → b ≡ true
    → IsOk x
    → IsOk (if b then x else y)
IsOk-else true x y e h = h
IsOk-else false x y e h = cc e

module _ (c : Codec) (sha3_text : String → String) (repr : ℤ → String) where
  replace_active_ok :
      (org model_name model_id : String) (kind : Kind) (user_id reason : String) (now : ℤ)
      (db : Db c)
      → find_deployment (deployment_id c sha3_text repr org model_id now) db.deployments ≡ none
      → (r : Option Deployment × Db c) × (replace_active c sha3_text repr org model_name model_id
            kind user_id reason now db
          ≡ ok r)
  unfolding replace_active
  replace_active_ok org model_name model_id kind user_id reason now db fresh =
      let current = find_active org model_name db.deployments in
      IsOk-either (serves current model_id) _ _ (_, refl)
        (IsOk-else
          (is_fresh
            (find_deployment (deployment_id c sha3_text repr org model_id now) db.deployments))
          _ _ (ap is_fresh fresh) (_, refl))

  -- A deployment succeeds whenever the model is in the registry and approved, its artifact passes the
  -- verification, and no deployment has the new id.
  pub deploy_ok :
      (org model_id user_id : String) (kind : Kind) (reason : String) (now : ℤ) (db : Db c)
      (m : Model c) (a : Artifact)
      → find_model c org model_id db.models ≡ some m
      → m.state ≡ approved
      → verify_artifact c sha3_text repr m db ≡ ok a
      → find_deployment (deployment_id c sha3_text repr org model_id now) db.deployments ≡ none
      → (r : Option Deployment × Db c) × (deploy c sha3_text repr org model_id user_id kind reason
            now db
          ≡ ok r)
  unfolding deploy get_model
  deploy_ok org model_id user_id kind reason now db m a found state checked fresh =
      let (r, written) = replace_active_ok org m.name model_id kind user_id reason now db fresh in
      let yes : is_state m.state approved ≡ true = ap (λ s. is_state s approved) state in
      (r, rw (found, yes, checked) written)
