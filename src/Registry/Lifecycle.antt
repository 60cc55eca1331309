-- ===== src/Registry/Lifecycle.antt =====
-- satsa/mlops/registry.py: the states of a model, `transition`, `approve` and `retire`. An operation
-- answers with the new database, or raises and leaves the database as it was (one transaction).
use sat_sa_with_pqc.Base.{
  String, ◌==◌, Bool, false, not, ◌||◌, Option, none, some, List, [], ◌∷◌, ◌++◌, Result, ok, err,
  ◌>>=◌, ◌>>◌, raise_if, or_raise, if◌then◌else◌,
}
use sat_sa_with_pqc.Base.Int.{ℤ}
use sat_sa_with_pqc.Evidence.Codec.{Codec}
use sat_sa_with_pqc.Registry.Artifact.{ArtifactError}
use sat_sa_with_pqc.Registry.Tables.{
  ModelState, registered, verified, quarantined, approved, retired, ModelEvent, Deployment,
  state_text, is_state, Model, Db, find_model, set_state, find_active, has_event, find_requester,
  stable_id, strip,
}

pub data RegistryError : Type 0 where
  model_not_found : RegistryError
  cannot_move : ModelState → ModelState → RegistryError
  needs_justification : RegistryError
  own_training : RegistryError
  needs_reason : RegistryError
  still_active : RegistryError
  not_approved : ModelState → RegistryError
  artifact_failed : ArtifactError → RegistryError
  no_longer_approved : RegistryError
  nothing_to_roll_back : RegistryError
  no_previous_model : RegistryError
  already_active : RegistryError
  target_not_approved : ModelState → RegistryError
  -- A row with the primary key exists.
  duplicate_key : RegistryError
  -- The passport is no JSON, or has no artifact digest: not an `ArtifactError`.
  unreadable_passport : RegistryError

abbrev pub transitions : ModelState → List ModelState
transitions registered = verified ∷ quarantined ∷ []
transitions verified = approved ∷ retired ∷ []
transitions quarantined = retired ∷ []
transitions approved = retired ∷ []
transitions retired = []

abbrev is_one_of : ModelState → List ModelState → Bool
is_one_of s [] = false
is_one_of s (t ∷ ts) = is_state s t || is_one_of s ts

abbrev pub may_move : ModelState → ModelState → Bool
may_move s target = is_one_of target (transitions s)

abbrev opt_state_text : Option ModelState → String
opt_state_text none = "None"
opt_state_text (some s) = state_text s

-- `requester and requester["requested_by"] == user_id`
abbrev pub requested_by : Option String → String → Bool
requested_by none user_id = false
requested_by (some requester) user_id = requester == user_id

abbrev pub serves : Option Deployment → String → Bool
serves none model_id = false
serves (some d) model_id = d.model_id == model_id

module _ (c : Codec) where
  unfoldable pub get_model : String → String → Db c → Result RegistryError (Model c)
  get_model org model_id db = or_raise (find_model c org model_id db.models) model_not_found

module _ (c : Codec) (sha3_text : String → String) (repr : ℤ → String) where
  unfoldable pub event_id : String → Option ModelState → ModelState → ℤ → String
  event_id model_id from_state to_state now =
      stable_id sha3_text "mlev"
        (model_id ∷ opt_state_text from_state ∷ state_text to_state ∷ repr now ∷ [])

  -- `_event`
  unfoldable pub add_event :
      String
      → String
      → Option ModelState
      → ModelState
      → String
      → String
      → ℤ
      → List ModelEvent
      → Result RegistryError (List ModelEvent)
  unfolding event_id
  add_event org model_id from_state to_state user_id reason now events =
      let key = event_id model_id from_state to_state now in
      if has_event key events
      then err duplicate_key
      else ok (
          events
          ++ record {
            id = key;
            organization_id = org;
            model_id = model_id;
            from_state = from_state;
            to_state = to_state;
            actor_user_id = user_id;
            reason = reason;
            created_at = now;
          }
            ∷ [])

  unfoldable pub transition :
      String
      → String
      → ModelState
      → String
      → String
      → ℤ
      → Db c
      → Result RegistryError (Model c × Db c)
  transition org model_id target user_id reason now db = do
    model ← get_model c org model_id db
    raise_if (not (may_move model.state target)) (cannot_move model.state target)
    events ← add_event org model_id (some model.state) target user_id reason now db.events
    let after : Db c = record db {
      models = set_state c org model_id target db.models;
      events = events;
    }
    moved ← get_model c org model_id after
    ok (moved, after)

  unfoldable pub approve :
      String → String → String → String → ℤ → Db c → Result RegistryError (Model c × Db c)
  approve org model_id user_id justification now db = do
    raise_if (strip justification == "") needs_justification
    model ← get_model c org model_id db
    raise_if (requested_by (find_requester org model.training_run_id db.training_runs) user_id)
        own_training
    transition org model_id approved user_id (strip justification) now db

  -- The checks of `retire`, which are made before the transaction.
  unfoldable pub check_retirable : String → String → String → Db c → Result RegistryError (Unit {0})
  check_retirable org model_id reason db = do
    raise_if (strip reason == "") needs_reason
    model ← get_model c org model_id db
    raise_if (serves (find_active org model.name db.deployments) model_id) still_active

  unfoldable pub retire :
      String → String → String → String → ℤ → Db c → Result RegistryError (Model c × Db c)
  retire org model_id user_id reason now db = do
    check_retirable org model_id reason db
    transition org model_id retired user_id (strip reason) now db
