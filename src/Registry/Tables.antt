-- ===== src/Registry/Tables.antt =====
-- The rows of the registry (qsmlops/database/migrations.py) and the queries of
-- satsa/mlops/registry.py on them. A table is the list of its rows, in the order of insertion.
use Prim.Native.Char.{code}
use Prim.Native.String.{◌++◌}
use sat_sa_with_pqc.Base.{
  ℕ, suc, zero, String, ◌==◌, Bool, false, ◌&&◌, ◌||◌, Option, none, some, List, [], ◌∷◌, leb,
  if◌then◌else◌,
}
use sat_sa_with_pqc.Base.Int.{ℤ}
use sat_sa_with_pqc.Evidence.Codec.{Codec}

pub data ModelState : Type 0 where
  registered : ModelState
  verified : ModelState
  quarantined : ModelState
  approved : ModelState
  retired : ModelState

pub data Kind : Type 0 where
  deploy_kind : Kind
  rollback_kind : Kind

pub record ModelEvent : Type 0 where
  pub id : String
  pub organization_id : String
  pub model_id : String
  pub from_state : Option ModelState
  pub to_state : ModelState
  pub actor_user_id : String
  pub reason : String
  pub created_at : ℤ

pub record Deployment : Type 0 where
  pub id : String
  pub organization_id : String
  pub model_name : String
  pub model_id : String
  pub kind : Kind
  pub active : Bool
  pub previous_deployment_id : Option String
  pub deployed_by : String
  pub reason : String
  pub created_at : ℤ
  pub deactivated_at : Option ℤ

-- The columns of a training run that the registry reads.
pub record TrainingRun : Type 0 where
  pub id : String
  pub organization_id : String
  pub requested_by : String

abbrev pub state_text : ModelState → String
state_text registered = "registered"
state_text verified = "verified"
state_text quarantined = "quarantined"
state_text approved = "approved"
state_text retired = "retired"

abbrev pub is_state : ModelState → ModelState → Bool
is_state s t = state_text s == state_text t

module _ (c : Codec) where
  open c use {Text}

  pub record Model : Type 0 where
    pub id : String
    pub organization_id : String
    pub name : String
    pub version : ℕ
    pub training_run_id : String
    pub dataset_id : String
    pub feature_version : String
    pub artifact_key : String
    pub artifact_digest : String
    pub passport_json : Text
    pub passport_digest : String
    pub state : ModelState
    pub created_at : ℤ

  -- The database, and what the artifact storage holds under a key.
  pub record Db : Type 0 where
    pub models : List Model
    pub events : List ModelEvent
    pub deployments : List Deployment
    pub training_runs : List TrainingRun
    pub stored : String → Option Text

  abbrev pub is_model : String → String → Model → Bool
  is_model org model_id m = m.organization_id == org && m.id == model_id

  abbrev pub find_model : String → String → List Model → Option Model
  find_model org model_id [] = none
  find_model org model_id (m ∷ ms) =
      if is_model org model_id m then some m else find_model org model_id ms

  -- `UPDATE satsa_ml_models SET state=? WHERE organization_id=? AND id=?`
  abbrev pub with_state : String → String → ModelState → Model → Model
  with_state org model_id target m =
      if is_model org model_id m then record m { state = target } else m

  abbrev pub set_state : String → String → ModelState → List Model → List Model
  set_state org model_id target [] = []
  set_state org model_id target (m ∷ ms) =
      with_state org model_id target m ∷ set_state org model_id target ms

abbrev pub is_active_for : String → String → Deployment → Bool
is_active_for org model_name d = d.organization_id == org && d.model_name == model_name && d.active

-- `active_deployment`
unfoldable pub find_active : String → String → List Deployment → Option Deployment
find_active org model_name [] = none
find_active org model_name (d ∷ ds) =
    if is_active_for org model_name d then some d else find_active org model_name ds

-- `UPDATE satsa_ml_deployments SET active=0,deactivated_at=? WHERE ... AND active=1`
abbrev pub deactivated : ℤ → String → String → Deployment → Deployment
deactivated now org deployment_id d =
    if d.organization_id == org && d.id == deployment_id && d.active
    then record d { active = false; deactivated_at = some now }
    else d

unfoldable pub deactivate : ℤ → String → String → List Deployment → List Deployment
deactivate now org deployment_id [] = []
deactivate now org deployment_id (d ∷ ds) =
    deactivated now org deployment_id d ∷ deactivate now org deployment_id ds

abbrev pub find_deployment : String → List Deployment → Option Deployment
find_deployment deployment_id [] = none
find_deployment deployment_id (d ∷ ds) =
    if d.id == deployment_id then some d else find_deployment deployment_id ds

abbrev pub has_event : String → List ModelEvent → Bool
has_event event_id [] = false
has_event event_id (e ∷ es) = e.id == event_id || has_event event_id es

abbrev pub find_requester : String → String → List TrainingRun → Option String
find_requester org run_id [] = none
find_requester org run_id (r ∷ rs) =
    if r.organization_id == org && r.id == run_id
    then some r.requested_by
    else find_requester org run_id rs

-- `"\x1f".join(parts)`
abbrev join_parts : List String → String
join_parts [] = ""
join_parts (p ∷ []) = p
join_parts (p ∷ q ∷ ps) = p ++ "\u{1f}" ++ join_parts (q ∷ ps)

abbrev first_chars : ℕ → String → String
first_chars zero s = ""
first_chars (suc n) String.[] = ""
first_chars (suc n) (String.◌∷◌ ch s) = String.◌∷◌ ch (first_chars n s)

-- `stable_id` of satsa/mlops/common.py; `sha3_text` is SHA3-256 of a text in UTF-8.
unfoldable pub stable_id : (String → String) → String → List String → String
stable_id sha3_text prefix parts = prefix ++ "_" ++ first_chars 24 (sha3_text (join_parts parts))

abbrev is_space : ℕ → Bool
is_space n = leb 9 n && leb n 13 || leb 28 n && leb n 32

abbrev strip_left : String → String
strip_left String.[] = ""
strip_left (String.◌∷◌ ch s) = if is_space (code ch) then strip_left s else String.◌∷◌ ch s

abbrev strip_right : String → String
strip_right String.[] = ""
strip_right (String.◌∷◌ ch s) =
    let rest = strip_right s in if rest == "" && is_space (code ch) then "" else String.◌∷◌ ch rest

-- `str.strip`, of ASCII white space.
unfoldable pub strip : String → String
strip s = strip_right (strip_left s)
