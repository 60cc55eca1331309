-- ===== src/Registry/Tests.antt =====
-- satsa/mlops: the theorems at the sample registry.
use sat_sa_with_pqc.Base.{
  ◌≡◌, ◌≢◌, refl, true, false, Option, none, some, [], ◌∷◌, ok, err, All, arith,
}
use sat_sa_with_pqc.Base.Int.{pos}
use sat_sa_with_pqc.Json.{nil, cons, num, arr}
use sat_sa_with_pqc.Evidence.Tests.{toy, toy_digest}
use sat_sa_with_pqc.Registry.Artifact.{
  Artifact, load, read_document, read_fields, feature_list, finite_list, numbers, intercept_of,
  text_list,
}
use sat_sa_with_pqc.Registry.Tables.{
  has_event, find_deployment, verified, approved, retired, Deployment, deploy_kind, Model, Db,
  find_model, set_state, find_active, deactivate, find_requester, stable_id, strip,
}
use sat_sa_with_pqc.Registry.Lifecycle.{
  event_id, add_event, get_model, transition, approve, check_retirable, retire, own_training,
}
use sat_sa_with_pqc.Registry.Deploy.{
  verify_artifact, deployment_id, replace_active, deploy, rollback,
}
use sat_sa_with_pqc.Registry.Governance.{IsGoverned, approve-IsGoverned, retire-IsGoverned}
use sat_sa_with_pqc.Registry.Shape.{Fits, load-Fits}
use sat_sa_with_pqc.Registry.Progress.{deploy_ok}
use sat_sa_with_pqc.Registry.Rollout.{Serves, deploy-IsGoverned, rollback-IsGoverned}
use sat_sa_with_pqc.Registry.Race.{retire_race}
use sat_sa_with_pqc.Registry.Samples.{
  model_document, model_row, registry, or_else, plain, show, small_artifact,
}

governed : IsGoverned toy plain show registry
governed = record {
  one_active = λ org n. ground arith;
  served = ((λ active. (model_row "m1" approved 1, refl, refl, refl)), tt);
}

-- The user who requested the training may not approve.
four_eyes : approve toy plain show "org" "m2" "ana" "fine" (pos 7) registry ≡ err own_training
unfolding approve get_model strip
four_eyes = refl

-- A list of one number is read.
one_number : finite_list (some (arr (cons (num (pos 3)) nil))) 1 "mean" ≡ ok (pos 3 ∷ [])
unfolding finite_list numbers
one_number = refl

abbrev approval : Model toy × Db toy
unfolding approve transition get_model add_event stable_id strip
approval =
    or_else (approve toy plain show "org" "m2" "sue" "fine" (pos 7) registry)
      (model_row "m2" verified 2, registry)

approval_ok : approve toy plain show "org" "m2" "sue" "fine" (pos 7) registry ≡ ok approval
unfolding approve transition get_model add_event stable_id strip
approval_ok = refl

approve-IsGoverned_example :
    IsGoverned toy plain show approval.1
    × (approval.1.models ≡ set_state toy "org" "m2" approved registry.models)
    × ((m : Model toy) × (find_model toy "org" "m2" registry.models ≡ some m)
        × (m.state ≡ verified)
        × (find_requester "org" m.training_run_id registry.training_runs ≢ some "sue"))
approve-IsGoverned_example =
    approve-IsGoverned toy plain show "org" "m2" "sue" "fine" (pos 7) registry approval approval_ok
      governed

abbrev retirement : Model toy × Db toy
unfolding retire check_retirable find_active transition get_model add_event stable_id strip
retirement =
    or_else (retire toy plain show "org" "m3" "sue" "old" (pos 7) registry)
      (model_row "m3" approved 3, registry)

retirement_ok : retire toy plain show "org" "m3" "sue" "old" (pos 7) registry ≡ ok retirement
unfolding retire check_retirable find_active transition get_model add_event stable_id strip
retirement_ok = refl

retire-IsGoverned_example :
    IsGoverned toy plain show retirement.1
    × (retirement.1.models ≡ set_state toy "org" "m3" retired registry.models)
    × (retirement.1.deployments ≡ registry.deployments)
    × All
        (λ d. d.active ≡ true → ¬ ((d.organization_id ≡ "org") × (d.model_id ≡ "m3")))
        retirement.1.deployments
retire-IsGoverned_example =
    retire-IsGoverned toy plain show "org" "m3" "sue" "old" (pos 7) registry retirement
      retirement_ok governed

abbrev deployment : Option Deployment × Db toy
unfolding deploy get_model verify_artifact load read_document read_fields feature_list finite_list
    numbers intercept_of text_list replace_active find_active deactivate deployment_id stable_id
deployment =
    or_else (deploy toy plain show "org" "m3" "sue" deploy_kind "" (pos 8) registry)
      (none, registry)

deployment_ok :
    deploy toy plain show "org" "m3" "sue" deploy_kind "" (pos 8) registry ≡ ok deployment
unfolding deploy get_model verify_artifact load read_document read_fields feature_list finite_list
    numbers intercept_of text_list replace_active find_active deactivate deployment_id stable_id
deployment_ok = refl

deploy-IsGoverned_example :
    IsGoverned toy plain show deployment.1
    × (deployment.1.models ≡ registry.models)
    × ((m : Model toy) × (find_model toy "org" "m3" registry.models ≡ some m)
        × (m.state ≡ approved)
        × ((a : Artifact) × (verify_artifact toy plain show m registry ≡ ok a))
        × Serves toy plain show "org" m.name deployment.1 "m3")
deploy-IsGoverned_example =
    deploy-IsGoverned toy plain show "org" "m3" "sue" deploy_kind "" (pos 8) registry deployment
      deployment_ok governed

abbrev rolled_back : Option Deployment × Db toy
unfolding rollback deploy get_model verify_artifact load read_document read_fields feature_list
    finite_list numbers intercept_of text_list replace_active find_active deactivate deployment_id
    stable_id
rolled_back =
    or_else
      (rollback toy plain show "org" "sue" (some "m3") "bad" "review-outcome" (pos 8) registry)
      (none, registry)

rolled_back_ok :
    rollback toy plain show "org" "sue" (some "m3") "bad" "review-outcome" (pos 8) registry
    ≡ ok rolled_back
unfolding rollback deploy get_model verify_artifact load read_document read_fields feature_list
    finite_list numbers intercept_of text_list replace_active find_active deactivate deployment_id
    stable_id
rolled_back_ok = refl

rollback-IsGoverned_example :
    IsGoverned toy plain show rolled_back.1
    × (rolled_back.1.models ≡ registry.models)
    × ((old : Deployment) × (m : Model toy) × (find_active "org" "review-outcome"
            registry.deployments
          ≡ some old)
        × (m.id ≢ old.model_id)
        × (m.state ≡ approved)
        × Serves toy plain show "org" m.name rolled_back.1 m.id)
rollback-IsGoverned_example =
    rollback-IsGoverned toy plain show "org" "sue" (some "m3") "bad" "review-outcome" (pos 8)
      registry rolled_back rolled_back_ok governed

small_artifact_verified :
    verify_artifact toy plain show (model_row "m3" approved 3) registry ≡ ok small_artifact
unfolding verify_artifact load read_document read_fields feature_list finite_list numbers
    intercept_of text_list
small_artifact_verified = refl

new_id_is_fresh :
    find_deployment (deployment_id toy plain show "org" "m3" (pos 8)) registry.deployments ≡ none
unfolding deployment_id stable_id
new_id_is_fresh = refl

check_passes : check_retirable toy plain show "org" "m3" "old" registry ≡ ok tt
unfolding check_retirable get_model strip find_active
check_passes = refl

no_retirement_yet :
    has_event (event_id toy plain show "m3" (some approved) retired (pos 9)) registry.events ≡ false
unfolding event_id stable_id
no_retirement_yet = refl

retire_race_example :
    (r : Option Deployment × Db toy) × (s : Model toy × Db toy) × (deploy toy plain show "org" "m3"
        "sue" deploy_kind ""
        (pos 8)
        registry
      ≡ ok r)
    × (transition toy plain show "org" "m3" retired "sue" (strip "old") (pos 9) r.1 ≡ ok s)
    × ((n : Model toy) × (d : Deployment) × (find_model toy "org" "m3" s.1.models ≡ some n)
        × (n.state ≡ retired)
        × (find_active "org" n.name s.1.deployments ≡ some d)
        × (d.model_id ≡ "m3"))
retire_race_example =
    retire_race toy plain show "org" "m3" "sue" "old" "sue" "" deploy_kind (pos 8) (pos 9) registry
      (model_row "m3" approved 3) small_artifact governed check_passes refl refl
      small_artifact_verified new_id_is_fresh no_retirement_yet

deploy_ok_example :
    (r : Option Deployment × Db toy) × (deploy toy plain show "org" "m3" "sue" deploy_kind ""
        (pos 8)
        registry
      ≡ ok r)
deploy_ok_example =
    deploy_ok toy plain show "org" "m3" "sue" deploy_kind "" (pos 8) registry
      (model_row "m3" approved 3) small_artifact refl refl small_artifact_verified new_id_is_fresh

loads_artifact :
    load toy (some model_document) (toy_digest (some model_document)) "f1" ≡ ok small_artifact
unfolding load read_document read_fields feature_list finite_list numbers intercept_of text_list
loads_artifact = refl

load-Fits_example :
    (toy_digest (some model_document) ≡ toy_digest (some model_document)) × Fits small_artifact
load-Fits_example =
    load-Fits toy (some model_document) (toy_digest (some model_document)) "f1" small_artifact
      loads_artifact
