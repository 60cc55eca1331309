-- ===== src/Keys/Tests.antt =====
-- Runs of the key store, and the theorems at them.
use sat_sa_with_pqc.Base.{
  err, ◌==◌, ℕ, String, Bool, ◌≡◌, ◌≢◌, refl, true, false, none, some, List, [], ◌∷◌, Result, ok,
  ◌>>=◌, All, arith,
}
use sat_sa_with_pqc.Base.Rows.{any}
use sat_sa_with_pqc.Keys.Store.{
  no_provider, no_signing_key, active, revoked, key_revoked, KeyFault, KeyRecord, KeyFiles,
  software, has_key_id, generate_keypair, expire_due_keys, list_records, active_signing_key,
  get_record, revoke, trusted_public_key,
}
use sat_sa_with_pqc.Keys.Rotation.{Fresh, rotate_signer, rotate_due_keys}
use sat_sa_with_pqc.Keys.Signing.{IsOnlySigner, rotate_signer_lem}
use sat_sa_with_pqc.Keys.Hardware.{Hardware, sign_with_hsm, verify_with_hsm}
use sat_sa_with_pqc.Keys.Revocation.{revoke_lem}

abbrev every : Bool → String → Bool
every is_signature algorithm = true

abbrev k1 : KeyRecord
k1 = record {
  key_id = "k1";
  role = "SIGNER";
  algorithm_id = "ML-DSA-44";
  public_key_hex = "aa";
  created_at = 10;
  version = 1;
  status = active;
  owner = "ana";
  expires_at = some 50;
  hsm_backed = false;
}

abbrev store : KeyFiles
store = record { anchors = k1 ∷ []; secrets = record { key_id = "k1"; secret_key_hex = "01" } ∷ [] }

abbrev first_run : ℕ → Fresh
first_run n = record { token = "t1"; made = software "bb" "02" }

abbrev second_run : ℕ → Fresh
second_run n = record { token = "t2"; made = software "cc" "03" }

-- The key of the owner expired at 50. It stays expired, so the next run rotates again, away from the
-- key that the first run made.
abbrev Runs : Type 0
Runs = List (String × String) × List (String × String) × (String × String)

-- What was returned after what, until something is raised.
abbrev both_maps :
    List (String × String)
    → Result KeyFault (List (String × String)) × KeyFiles
    → Result KeyFault Runs
both_maps first_map (second_map, last) =
    second_map >>= λ m. active_signing_key 62 "ana" last >>= λ key. ok (first_map, m, key)

abbrev after_first : Result KeyFault (List (String × String)) × KeyFiles → Result KeyFault Runs
after_first (first_map, after) =
    first_map >>= λ m. both_maps m (rotate_due_keys every 61 61 (some 1000) second_run after)

rotates_again :
    after_first (rotate_due_keys every 60 60 (some 1000) first_run store)
    ≡ ok (
      ("k1", "ana-ML-DSA-65-t1") ∷ [],
      ("k1", "ana-ML-DSA-65-t2") ∷ [],
      ("ana-ML-DSA-65-t2", "03"),
    )
unfolding rotate_due_keys rotate_signer generate_keypair expire_due_keys list_records
    active_signing_key
rotates_again = refl

abbrev no_algorithm : Bool → String → Bool
no_algorithm is_signature algorithm = false

-- A rotation to an algorithm without a provider raises, and leaves the owner without a signing key.
abbrev signing_after :
    Result KeyFault String × KeyFiles → Result KeyFault String × Result KeyFault (String × String)
signing_after (result, files) = (result, active_signing_key 21 "ana" files)

failed_rotation :
    signing_after (
      rotate_signer no_algorithm 20 "ana"
        (some "ML-DSA-99")
        none
        (record { token = "t1"; made = software "bb" "02" })
        store)
    ≡ (err (no_provider "ML-DSA-99"), err (no_signing_key "ana"))
unfolding rotate_signer generate_keypair list_records active_signing_key
failed_rotation = refl

-- The version of a revoked key is given again.
version_again :
    (revoke "k1" store >>= λ files.
    generate_keypair every 20 "SIGNER" "ML-DSA-44" "ana" none "t1" (software "bb" "02") files
    >>= λ (pair, after). get_record "ana-ML-DSA-44-t1" after >>= λ r. ok r.version)
    ≡ ok 1
unfolding revoke generate_keypair get_record
version_again = refl

rotate_signer_lem_example :
    (after : KeyFiles) × (rotate_signer every 20 "ana" none
        (some 100)
        (record { token = "t1"; made = software "bb" "02" })
        store
      ≡ (ok "ana-ML-DSA-44-t1", after))
    × All (IsOnlySigner "ana" "ana-ML-DSA-44-t1") after.anchors
    × (active_signing_key 40 "ana" after ≡ ok ("ana-ML-DSA-44-t1", "02"))
unfolding list_records
rotate_signer_lem_example =
    rotate_signer_lem every 20 40 "ana" none (some 100) "t1" "bb" "02" store refl (refl, tt)
      (omega arith)

-- A key in hardware, which a module signs with.
abbrev k2 : KeyRecord
k2 = record k1 { key_id = "k2"; hsm_backed = true }

abbrev module_store : KeyFiles
module_store = record { anchors = k1 ∷ k2 ∷ []; secrets = store.secrets }

abbrev module_revoked : KeyFiles
module_revoked = record module_store { anchors = k1 ∷ record k2 { status = revoked } ∷ [] }

abbrev signing_module : Hardware
signing_module = record {
  is_available = true;
  sign = λ id message. ok "signed";
  verify = λ id message signature. ok (signature == "signed");
}

module_run : revoke "k2" module_store ≡ ok module_revoked
unfolding revoke
module_run = refl

signed_when_revoked : sign_with_hsm signing_module "k2" "m" module_revoked ≡ ok "signed"
unfolding sign_with_hsm get_record
signed_when_revoked = refl

revoke_lem_example :
    (any (has_key_id "k2") module_store.anchors ≡ true)
    × (trusted_public_key 20 "k2" module_revoked ≡ err (key_revoked "k2"))
    × ((owner secret : String) → active_signing_key 20 owner module_revoked ≢ ok ("k2", secret))
    × ((h : Hardware) (message signature : String)
        → (sign_with_hsm h "k2" message module_revoked ≡ sign_with_hsm h "k2" message module_store)
          × (verify_with_hsm h "k2" message signature module_revoked
              ≡ verify_with_hsm h "k2" message signature module_store))
revoke_lem_example = revoke_lem "k2" module_store module_revoked 20 module_run
