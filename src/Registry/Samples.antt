-- ===== src/Registry/Samples.antt =====
-- satsa/mlops: a registry with three models, one of them deployed, and a small artifact.
use sat_sa_with_pqc.Base.{
  ℕ, String, ◌==◌, true, Option, none, some, [], ◌∷◌, Result, ok, err, if◌then◌else◌,
}
use sat_sa_with_pqc.Base.Int.{ℤ, pos}
use sat_sa_with_pqc.Json.{Json, nil, cons, end, field, str, num, arr, obj}
use sat_sa_with_pqc.Evidence.Tests.{toy, toy_digest}
use sat_sa_with_pqc.Registry.Artifact.{Artifact}
use sat_sa_with_pqc.Registry.Tables.{
  ModelState, verified, approved, Deployment, deploy_kind, Model, Db,
}

abbrev pub model_document : Json
model_document = obj (
    field "coef" (arr (cons (num (pos 2)) nil)) (
      field "feature_version" (str "f1") (
        field "features" (arr (cons (str "alerts") nil)) (
          field "format" (str "satsa-logistic-regression/1") (
            field "intercept" (num (pos 0)) (
              field "mean" (arr (cons (num (pos 3)) nil)) (
                field "scale" (arr (cons (num (pos 1)) nil)) (
                  field "train_max" (arr (cons (num (pos 9)) nil))
                    (field "train_min" (arr (cons (num (pos 0)) nil)) end)))))))))

abbrev pub passport : Option Json
passport = some (
    obj
      (field "artifact" (obj (field "sha3_256" (str (toy_digest (some model_document))) end)) end))

abbrev pub model_row : String → ModelState → ℕ → Model toy
model_row model_id state version = record {
  id = model_id;
  organization_id = "org";
  name = "review-outcome";
  version = version;
  training_run_id = "run";
  dataset_id = "set";
  feature_version = "f1";
  artifact_key = "key";
  artifact_digest = toy_digest (some model_document);
  passport_json = passport;
  passport_digest = toy_digest passport;
  state = state;
  created_at = pos version;
}

abbrev pub served_row : Deployment
served_row = record {
  id = "dep";
  organization_id = "org";
  model_name = "review-outcome";
  model_id = "m1";
  kind = deploy_kind;
  active = true;
  previous_deployment_id = none;
  deployed_by = "sue";
  reason = "";
  created_at = pos 4;
  deactivated_at = none;
}

abbrev pub store : String → Option (Option Json)
store key = if key == "key" then some (some model_document) else none

abbrev pub registry : Db toy
registry = record {
  models = model_row "m1" approved 1 ∷ model_row "m2" verified 2 ∷ model_row "m3" approved 3 ∷ [];
  events = [];
  deployments = served_row ∷ [];
  training_runs = record { id = "run"; organization_id = "org"; requested_by = "ana" } ∷ [];
  stored = store;
}

abbrev pub or_else : {A E : Type 0} → Result E A → A → A
or_else (ok a) b = a
or_else (err e) b = b

abbrev pub plain : String → String
plain s = s

abbrev pub show : ℤ → String
show n = "t"

abbrev pub small_artifact : Artifact
small_artifact = record {
  features = "alerts" ∷ [];
  mean = pos 3 ∷ [];
  scale = pos 1 ∷ [];
  coef = pos 2 ∷ [];
  intercept = pos 0;
  train_min = pos 0 ∷ [];
  train_max = pos 9 ∷ [];
}
