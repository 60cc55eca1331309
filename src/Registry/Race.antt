-- ===== src/Registry/Race.antt =====
-- A deployment that comes between the checks of `retire` and its transition.
use sat_sa_with_pqc.Base.{
  String, eq_iff, if◌then◌else◌, false, Bool, ◌≡◌, refl, sym, ◌∙◌, subst, ap, true, not, Option,
  none, some, List, [], ◌∷◌, ◌++◌, Result, ok, err, same_value, >>=-eq-ok, raise_if, or_raise,
  arith,
}
use sat_sa_with_pqc.Base.Int.{ℤ}
use sat_sa_with_pqc.Evidence.Codec.{Codec}
use sat_sa_with_pqc.Registry.Artifact.{Artifact}
use sat_sa_with_pqc.Registry.Tables.{
  ModelEvent, has_event, ModelState, approved, retired, Kind, Deployment, is_state, Model, Db,
  is_model, with_state, strip, find_model, set_state, find_active, find_deployment,
}
use sat_sa_with_pqc.Registry.Lifecycle.{
  RegistryError, not_approved, no_longer_approved, duplicate_key, get_model, serves, may_move,
  check_retirable, transition, add_event, event_id,
}
use sat_sa_with_pqc.Registry.Deploy.{
  deployment_id, replaced, new_deployment, replace_active, deploy, verify_artifact, or_reported,
  is_fresh,
}
use sat_sa_with_pqc.Registry.Governance.{
  find_model-is_model, find_model-set_state, transition_inv, IsGoverned,
}
use sat_sa_with_pqc.Registry.Rollout.{deploy-IsGoverned}
use sat_sa_with_pqc.Registry.Progress.{IsOk, deploy_ok}

IsOk-otherwise :
    {A : Type 0} (b : Bool) (x y : Result RegistryError A)
    → b ≡ false
    → IsOk y
    → IsOk (if b then x else y)
IsOk-otherwise true x y e h = cc e
IsOk-otherwise false x y e h = h

module _ (c : Codec) (sha3_text : String → String) (repr : ℤ → String) where
  is_its_model :
      (org model_id : String) (ms : List (Model c)) (m : Model c)
      → find_model c org model_id ms ≡ some m
      → is_model c org model_id m ≡ true
  is_its_model org model_id ms m found =
      let (e, f) = find_model-is_model c sha3_text repr org model_id ms m found in
      ground (arith, e, f, eq_iff m.organization_id org, eq_iff m.id model_id)

  raced :
      (org model_id user_id reason deployer why : String) (kind : Kind) (now later : ℤ) (db : Db c)
      (r : Option Deployment × Db c) (s : Model c × Db c)
      → IsGoverned c sha3_text repr db
      → deploy c sha3_text repr org model_id deployer kind why now db ≡ ok r
      → transition c sha3_text repr org model_id retired user_id (strip reason) later r.1 ≡ ok s
      → (n : Model c) × (d : Deployment) × (find_model c org model_id s.1.models ≡ some n)
        × (n.state ≡ retired)
        × (find_active org n.name s.1.deployments ≡ some d)
        × (d.model_id ≡ model_id)
  raced org model_id user_id reason deployer why kind now later db r s g deployed moved =
      let (_, models, (m, found, _, _, (d, serving, its_model))) =
        deploy-IsGoverned c sha3_text repr org model_id deployer kind why now db r deployed g in
      let (n, found_n, _, after, rows) =
        transition_inv c sha3_text repr org model_id retired user_id (strip reason) later r.1 s
          moved in
      let found_r : find_model c org model_id r.1.models ≡ some m =
        ap (find_model c org model_id) models ∙ found in
      let it : is_model c org model_id m ≡ true = is_its_model org model_id r.1.models m found_r in
      let its_state : with_state c org model_id retired m ≡ record m { state = retired } =
        rw it refl in
      (
        record m { state = retired },
        d,
        ap (find_model c org model_id) after
            ∙ find_model-set_state c sha3_text repr org model_id org model_id retired r.1.models m
                found_r
            ∙ ap some its_state,
        refl,
        ap (find_active org m.name) rows ∙ serving,
        its_model,
      )

  either-events :
      (b : Bool) (x y : Result RegistryError (Option Deployment × Db c))
      (r : Option Deployment × Db c) (es : List ModelEvent)
      → (x ≡ ok r → r.1.events ≡ es)
      → (y ≡ ok r → r.1.events ≡ es)
      → (if b then x else y) ≡ ok r
      → r.1.events ≡ es
  either-events true x y r es f g h = f h
  either-events false x y r es f g h = g h

  result-events :
      (o : Option Deployment) (after : Db c) (r : Option Deployment × Db c)
      → Path (Result RegistryError (Option Deployment × Db c)) (ok (o, after)) (ok r)
      → r.1.events ≡ after.events
  result-events o after r h =
      ap (λ (p : Option Deployment × Db c). p.1.events) (sym (same_value (ok (o, after)) refl h))

  replace_active-events :
      (org model_name model_id : String) (kind : Kind) (user_id reason : String) (now : ℤ)
      (db : Db c) (r : Option Deployment × Db c)
      → replace_active c sha3_text repr org model_name model_id kind user_id reason now db ≡ ok r
      → r.1.events ≡ db.events
  unfolding replace_active
  replace_active-events org model_name model_id kind user_id reason now db r h =
      let current = find_active org model_name db.deployments in
      let new =
        new_deployment c sha3_text repr org model_name model_id kind user_id reason now current in
      let rows = replaced now org current db.deployments ++ new ∷ [] in
      let after : Db c = record db { deployments = rows } in
      let fresh = is_fresh (find_deployment new.id db.deployments) in
      let result : Result RegistryError (Option Deployment × Db c) =
        ok (find_deployment new.id rows, after) in
      either-events (serves current model_id) (ok (current, db))
        (if fresh then result else err duplicate_key) r db.events (result-events current db r)
        (either-events fresh result (err duplicate_key) r db.events
          (result-events (find_deployment new.id rows) after r) (λ no. cc no))
        h

  deploy-events :
      (org model_id user_id : String) (kind : Kind) (reason : String) (now : ℤ) (db : Db c)
      (r : Option Deployment × Db c)
      → deploy c sha3_text repr org model_id user_id kind reason now db ≡ ok r
      → r.1.events ≡ db.events
  unfolding deploy
  deploy-events org model_id user_id kind reason now db r h =
      let (m, got, h1) = >>=-eq-ok (get_model c org model_id db) _ h in
      let (_, is_approved, h2) =
        >>=-eq-ok (raise_if (not (is_state m.state approved)) (not_approved m.state)) _ h1 in
      let (a, checked, h3) = >>=-eq-ok (or_reported (verify_artifact c sha3_text repr m db)) _ h2 in
      let (n, again, h4) =
        >>=-eq-ok (or_raise (find_model c org model_id db.models) no_longer_approved) _ h3 in
      let (_, still, h5) =
        >>=-eq-ok (raise_if (not (is_state n.state approved)) no_longer_approved) _ h4 in
      replace_active-events org m.name model_id kind user_id reason now db r h5

  add_event_ok :
      (org model_id : String) (from_state : Option ModelState) (to_state : ModelState)
      (user_id reason : String) (now : ℤ) (events : List ModelEvent)
      → has_event (event_id c sha3_text repr model_id from_state to_state now) events ≡ false
      → (after : List ModelEvent) × (add_event c sha3_text repr org model_id from_state to_state
            user_id reason now events
          ≡ ok after)
  unfolding add_event
  add_event_ok org model_id from_state to_state user_id reason now events fresh =
      IsOk-otherwise _ _ _ fresh (_, refl)

  transition_ok :
      (org model_id user_id reason : String) (now : ℤ) (db : Db c) (m n : Model c)
      (events : List ModelEvent)
      → find_model c org model_id db.models ≡ some m
      → may_move m.state retired ≡ true
      → add_event c sha3_text repr org model_id (some m.state) retired user_id reason now db.events
        ≡ ok events
      → find_model c org model_id (set_state c org model_id retired db.models) ≡ some n
      → transition c sha3_text repr org model_id retired user_id reason now db
        ≡ ok (n, record db { models = set_state c org model_id retired db.models; events = events })
  unfolding transition get_model
  transition_ok org model_id user_id reason now db m n events found moves added again =
      rw (found, moves, added, again) refl

  -- An approved model is retired whenever the event of its retirement is new.
  retirement_ok :
      (org model_id user_id reason : String) (now : ℤ) (db : Db c) (m : Model c)
      → find_model c org model_id db.models ≡ some m
      → m.state ≡ approved
      → has_event (event_id c sha3_text repr model_id (some approved) retired now) db.events ≡ false
      → (s : Model c × Db c) × (transition c sha3_text repr org model_id retired user_id reason now
            db
          ≡ ok s)
  retirement_ok org model_id user_id reason now db m found state fresh =
      let (events, added) =
        add_event_ok org model_id (some m.state) retired user_id reason now db.events (
          subst
            (λ (s : ModelState).
              has_event (event_id c sha3_text repr model_id (some s) retired now) db.events ≡ false)
            (sym state) fresh) in
      (
        (with_state c org model_id retired m, _),
        transition_ok org model_id user_id reason now db m (with_state c org model_id retired m)
            events found (ap (λ (s : ModelState). may_move s retired) state) added
            (find_model-set_state c sha3_text repr org model_id org model_id retired db.models m
              found),
      )

  -- The check of `retire` and its transaction are two steps. Suppose the check passes for an approved
  -- model of a governed registry, its artifact passes the verification, no deployment has the id of
  -- the new one, and no event has the id of the retirement. Then a deployment of the model between
  -- the two steps succeeds, and so does the transition after it, which leaves a retired model whose
  -- name is still served by its active deployment.
  pub retire_race :
      (org model_id user_id reason deployer why : String) (kind : Kind) (now later : ℤ) (db : Db c)
      (m : Model c) (a : Artifact)
      → IsGoverned c sha3_text repr db
      → check_retirable c sha3_text repr org model_id reason db ≡ ok tt
      → find_model c org model_id db.models ≡ some m
      → m.state ≡ approved
      → verify_artifact c sha3_text repr m db ≡ ok a
      → find_deployment (deployment_id c sha3_text repr org model_id now) db.deployments ≡ none
      → has_event (event_id c sha3_text repr model_id (some approved) retired later) db.events
        ≡ false
      → (r : Option Deployment × Db c) × (s : Model c × Db c) × (deploy c sha3_text repr org
            model_id deployer kind why now db
          ≡ ok r)
        × (transition c sha3_text repr org model_id retired user_id (strip reason) later r.1 ≡ ok s)
        × ((n : Model c) × (d : Deployment) × (find_model c org model_id s.1.models ≡ some n)
            × (n.state ≡ retired)
            × (find_active org n.name s.1.deployments ≡ some d)
            × (d.model_id ≡ model_id))
  retire_race org model_id user_id reason deployer why kind now later db m a g passes found state
        checked fresh new =
      let (r, deployed) =
        deploy_ok c sha3_text repr org model_id deployer kind why now db m a found state checked
          fresh in
      let (_, models, _) =
        deploy-IsGoverned c sha3_text repr org model_id deployer kind why now db r deployed g in
      let events = deploy-events org model_id deployer kind why now db r deployed in
      let (s, moved) =
        retirement_ok org model_id user_id (strip reason) later r.1 m
          (ap (find_model c org model_id) models ∙ found) state
          (ap (has_event (event_id c sha3_text repr model_id (some approved) retired later)) events
            ∙ new) in
      (
        r,
        s,
        deployed,
        moved,
        raced org model_id user_id reason deployer why kind now later db r s g deployed moved,
      )
