-- ===== src/Keys/Rotation.antt =====
-- `rotate_signer` and `rotate_due_keys` of qsmlops/crypto/keys.py. `clock` is what `time.time()` gives during
-- the call, and `now` the argument of that name.
use sat_sa_with_pqc.Base.{
  ℕ, suc, ◌+◌, String, ◌==◌, Bool, true, false, not, ◌&&◌, ◌||◌, Option, none, some, List, [], ◌∷◌,
  ◌++◌, Result, ok, err, ◌>>=◌, or_raise, leb, eqb, if◌then◌else◌,
}
use sat_sa_with_pqc.Base.Rows.{update, first}
use sat_sa_with_pqc.Keys.Store.{
  rotated, is_active, is_marked_expired, KeyFault, rotation_failed, KeyRecord, KeyFiles, KeyPair,
  Generated, is_expired, has_key_id, keep, list_records, generate_keypair, expire_due_keys,
}

abbrev pub is_signer_of : String → KeyRecord → Bool
is_signer_of owner r = r.owner == owner && is_active r.status

-- The record was read from the file that it is written back to, with its status changed.
abbrev pub retire_keys : List KeyRecord → List KeyRecord → List KeyRecord
retire_keys [] anchors = anchors
retire_keys (old ∷ olds) anchors =
    retire_keys olds (update (has_key_id old.key_id) (λ r. record r { status = rotated }) anchors)

abbrev pub algorithm_of : List KeyRecord → String
algorithm_of [] = "ML-DSA-65"
algorithm_of (r ∷ rs) = r.algorithm_id

abbrev pub algorithm_or : Option String → List KeyRecord → String
algorithm_or none old = algorithm_of old
algorithm_or (some algorithm) old = if algorithm == "" then algorithm_of old else algorithm

abbrev pub has_public_key : String → KeyRecord → Bool
has_public_key public_key r = r.public_key_hex == public_key

-- What the generation of one key draws.
pub record Fresh : Type 0 where
  pub token : String
  pub made : Generated

-- The id of the record that was written with the public key.
abbrev pub found_key : String → KeyFiles → Result KeyFault String × KeyFiles
found_key public_key after = (
  or_raise (first (has_public_key public_key) after.anchors) rotation_failed >>= λ r. ok r.key_id,
  after,
)

-- If no key is generated, the retirement of the old ones stays written.
abbrev pub issued :
    KeyFiles → Result KeyFault (KeyPair × KeyFiles) → Result KeyFault String × KeyFiles
issued retired (err e) = (err e, retired)
issued retired (ok (pair, after)) = found_key pair.public_key after

abbrev pub and_then :
    {A : Type 0}
    → (String → KeyFiles → Result KeyFault A × KeyFiles)
    → Result KeyFault String × KeyFiles
    → Result KeyFault A × KeyFiles
and_then next (err e, files) = (err e, files)
and_then next (ok id, files) = next id files

module _ (offers : Bool → String → Bool) where
  -- What is raised or returned, and the files afterwards.
  unfoldable pub rotate_signer :
      ℕ → String → Option String → Option ℕ → Fresh → KeyFiles → Result KeyFault String × KeyFiles
  rotate_signer clock owner new_algorithm lifetime fresh files =
      let old = keep (is_signer_of owner) (list_records (some "SIGNER") true files) in
      let algorithm = algorithm_or new_algorithm old in
      let retired : KeyFiles = record files { anchors = retire_keys old files.anchors } in
      issued retired (
        generate_keypair offers clock "SIGNER" algorithm owner lifetime fresh.token fresh.made
          retired)

  -- `lifetime_days and rec.age_days >= lifetime_days`
  abbrev pub is_over_age : ℕ → Option ℕ → KeyRecord → Bool
  is_over_age clock none r = false
  is_over_age clock (some lifetime) r =
      if eqb lifetime 0 then false else leb (r.created_at + lifetime) clock

  abbrev pub to_rotate : ℕ → ℕ → Option ℕ → KeyRecord → Bool
  to_rotate clock now lifetime r =
      is_active r.status
        && (is_marked_expired r.status || is_expired now r || is_over_age clock lifetime r)
      || is_marked_expired r.status

  -- `key_id in rotated`
  abbrev pub is_done : String → List (String × String) → Bool
  is_done id [] = false
  is_done id ((old, new_key) ∷ rest) = id == old || is_done id rest

  -- The loop; `fresh n` is what the n-th generation draws.
  abbrev pub rotate_each :
      ℕ
      → ℕ
      → Option ℕ
      → (ℕ → Fresh)
      → List KeyRecord
      → ℕ
      → List (String × String)
      → KeyFiles
      → Result KeyFault (List (String × String)) × KeyFiles
  rotate_each clock now lifetime fresh [] n rotated_keys files = (ok rotated_keys, files)
  rotate_each clock now lifetime fresh (r ∷ rs) n rotated_keys files =
      let go_on = rotate_each clock now lifetime fresh rs in
      if to_rotate clock now lifetime r && not (is_done r.key_id rotated_keys)
      then and_then
          (λ new_key after. go_on (suc n) (rotated_keys ++ (r.key_id, new_key) ∷ []) after)
          (rotate_signer clock r.owner none lifetime (fresh n) files)
      else go_on n rotated_keys files

  unfoldable pub rotate_due_keys :
      ℕ
      → ℕ
      → Option ℕ
      → (ℕ → Fresh)
      → KeyFiles
      → Result KeyFault (List (String × String)) × KeyFiles
  rotate_due_keys clock now lifetime fresh files =
      let swept = (expire_due_keys now files).1 in
      rotate_each clock now lifetime fresh (list_records (some "SIGNER") true swept) 0 [] swept
