-- ===== src/Registry/Deploy.antt =====
-- satsa/mlops/registry.py: `verify_artifact`, `deploy` and `rollback`.
use sat_sa_with_pqc.Base.{
  String, ◌==◌, Bool, true, false, not, ◌&&◌, Option, none, some, List, [], ◌∷◌, ◌++◌, Result, ok,
  err, ◌>>=◌, ◌>>◌, raise_if, or_raise, if◌then◌else◌,
}
use sat_sa_with_pqc.Base.Int.{ℤ, leb_ℤ}
use sat_sa_with_pqc.Json.{Json, str, obj, get}
use sat_sa_with_pqc.Evidence.Codec.{Codec}
use sat_sa_with_pqc.Registry.Artifact.{
  ArtifactError, Artifact, is_missing, passport_altered, passport_disagrees, load,
}
use sat_sa_with_pqc.Registry.Tables.{
  approved, Kind, rollback_kind, Deployment, is_state, Model, Db, find_model, find_active,
  deactivate, find_deployment, stable_id,
}
use sat_sa_with_pqc.Registry.Lifecycle.{
  RegistryError, not_approved, artifact_failed, no_longer_approved, nothing_to_roll_back,
  no_previous_model, already_active, target_not_approved, duplicate_key, unreadable_passport,
  get_model, serves,
}

-- `ArtifactError`, or an error of another class.
pub data VerifyError : Type 0 where
  artifact_error : ArtifactError → VerifyError
  other_error : VerifyError

-- `except artifact.ArtifactError`
abbrev pub reported : VerifyError → RegistryError
reported (artifact_error e) = artifact_failed e
reported other_error = unreadable_passport

abbrev pub or_reported {ℓ} : {A : Type ℓ} → Result VerifyError A → Result RegistryError A
or_reported (ok a) = ok a
or_reported (err e) = err (reported e)

abbrev from_artifact {ℓ} : {A : Type ℓ} → Result ArtifactError A → Result VerifyError A
from_artifact (ok a) = ok a
from_artifact (err e) = err (artifact_error e)

abbrev digest_field : Option Json → Result VerifyError Json
digest_field (some (obj d)) = or_raise (get "sha3_256" d) other_error
digest_field _ = err other_error

-- `passport["artifact"]["sha3_256"]`
abbrev pub passport_digest_of : Json → Result VerifyError Json
passport_digest_of (obj d) = digest_field (get "artifact" d)
passport_digest_of _ = err other_error

abbrev pub is_digest_text : Json → String → Bool
is_digest_text (str s) t = s == t
is_digest_text _ t = false

abbrev previous_id : Option Deployment → Option String
previous_id none = none
previous_id (some d) = some d.id

abbrev pub is_fresh : Option Deployment → Bool
is_fresh none = true
is_fresh (some d) = false

-- The deployments after the `UPDATE` of the one that is active, if there is one.
abbrev pub replaced : ℤ → String → Option Deployment → List Deployment → List Deployment
replaced now org none ds = ds
replaced now org (some current) ds = deactivate now org current.id ds

module _ (c : Codec) (sha3_text : String → String) (repr : ℤ → String) where
  open c use {loads, sha3_hex}

  unfoldable pub verify_artifact : Model c → Db c → Result VerifyError Artifact
  verify_artifact model db = do
    bytes ← or_raise (db.stored model.artifact_key) (artifact_error is_missing)
    passport ← or_raise (loads model.passport_json) other_error
    raise_if (not (sha3_hex model.passport_json == model.passport_digest))
        (artifact_error passport_altered)
    recorded ← passport_digest_of passport
    raise_if (not (is_digest_text recorded model.artifact_digest))
        (artifact_error passport_disagrees)
    from_artifact (load c bytes model.artifact_digest model.feature_version)

  unfoldable pub deployment_id : String → String → ℤ → String
  deployment_id org model_id now = stable_id sha3_text "mldep" (org ∷ model_id ∷ repr now ∷ [])

  abbrev pub new_deployment :
      String → String → String → Kind → String → String → ℤ → Option Deployment → Deployment
  new_deployment org model_name model_id kind user_id reason now current = record {
    id = deployment_id org model_id now;
    organization_id = org;
    model_name = model_name;
    model_id = model_id;
    kind = kind;
    active = true;
    previous_deployment_id = previous_id current;
    deployed_by = user_id;
    reason = reason;
    created_at = now;
    deactivated_at = none;
  }

  -- The part of the transaction that writes.
  unfoldable pub replace_active :
      String
      → String
      → String
      → Kind
      → String
      → String
      → ℤ
      → Db c
      → Result RegistryError (Option Deployment × Db c)
  replace_active org model_name model_id kind user_id reason now db =
      let current = find_active org model_name db.deployments in
      let new = new_deployment org model_name model_id kind user_id reason now current in
      let rows = replaced now org current db.deployments ++ new ∷ [] in
      if serves current model_id
      then ok (current, db)
      else if is_fresh (find_deployment new.id db.deployments)
      then ok (find_deployment new.id rows, record db { deployments = rows })
      else err duplicate_key

  unfoldable pub deploy :
      String
      → String
      → String
      → Kind
      → String
      → ℤ
      → Db c
      → Result RegistryError (Option Deployment × Db c)
  deploy org model_id user_id kind reason now db = do
    model ← get_model c org model_id db
    raise_if (not (is_state model.state approved)) (not_approved model.state)
    artifact ← or_reported (verify_artifact model db)
    current_model ← or_raise (find_model c org model_id db.models) no_longer_approved
    raise_if (not (is_state current_model.state approved)) no_longer_approved
    replace_active org model.name model_id kind user_id reason now db

  -- The model of a deployment is in the registry, and approved.
  abbrev approved_model : Option (Model c) → Bool
  approved_model none = false
  approved_model (some m) = is_state m.state approved

  abbrev is_candidate : String → String → String → Db c → Deployment → Bool
  is_candidate org model_name current_model_id db d =
      d.organization_id == org
      && d.model_name == model_name
      && not d.active
      && not (d.model_id == current_model_id)
      && approved_model (find_model c org d.model_id db.models)

  abbrev later : Deployment → Option Deployment → Deployment
  later d none = d
  later d (some e) = if leb_ℤ e.created_at d.created_at then d else e

  -- `ORDER BY d.created_at DESC LIMIT 1`; of two with one time the first row is taken.
  abbrev pub last_candidate : String → String → String → Db c → List Deployment → Option Deployment
  last_candidate org model_name current_model_id db [] = none
  last_candidate org model_name current_model_id db (d ∷ ds) =
      let rest = last_candidate org model_name current_model_id db ds in
      if is_candidate org model_name current_model_id db d then some (later d rest) else rest

  abbrev model_id_of : Option Deployment → Result RegistryError String
  model_id_of none = err no_previous_model
  model_id_of (some d) = ok d.model_id

  -- The model asked for, or that of the last candidate.
  abbrev pub rollback_target :
      String → String → Option String → Deployment → Db c → Result RegistryError String
  rollback_target org model_name (some target) current db = ok target
  rollback_target org model_name none current db =
      model_id_of (last_candidate org model_name current.model_id db db.deployments)

  unfoldable pub rollback :
      String
      → String
      → Option String
      → String
      → String
      → ℤ
      → Db c
      → Result RegistryError (Option Deployment × Db c)
  rollback org user_id target_model_id reason model_name now db = do
    current ← or_raise (find_active org model_name db.deployments) nothing_to_roll_back
    target_id ← rollback_target org model_name target_model_id current db
    target ← get_model c org target_id db
    raise_if (target.id == current.model_id) already_active
    raise_if (not (is_state target.state approved)) (target_not_approved target.state)
    deploy org target.id user_id rollback_kind reason now db
