-- ===== src/Keys/Store.antt =====
-- `KeyRecord` and `KeyStore` of qsmlops/crypto/keys.py: what is read, generated, revoked and expired. Times are
-- whole seconds. The file of trust anchors is the list of its records in the order of their ids, as
-- `sort_keys` writes it. What a provider or a hardware module generates is an argument, and so is the
-- random end of a key id.
use sat_sa_with_pqc.Base.{
  ℕ, ◌+◌, String, ◌==◌, Bool, true, false, not, ◌&&◌, ◌||◌, Option, none, some, List, [], ◌∷◌,
  Result, ok, ◌>>=◌, ◌>>◌, raise_if, or_raise, leb, ltb, eqb, contains, if◌then◌else◌,
}
use sat_sa_with_pqc.Base.Rows.{update, first, any}
use sat_sa_with_pqc.Base.Sorting.{sort_by}
use sat_sa_with_pqc.Evidence.Sensitive.{codes}
use sat_sa_with_pqc.Policy.Values.{joined, lt, orders_codes}

pub data KeyStatus : Type 0 where
  active : KeyStatus
  rotated : KeyStatus
  revoked : KeyStatus
  expired : KeyStatus

abbrev pub is_active : KeyStatus → Bool
is_active active = true
is_active _ = false

abbrev pub is_revoked : KeyStatus → Bool
is_revoked revoked = true
is_revoked _ = false

abbrev pub is_marked_expired : KeyStatus → Bool
is_marked_expired expired = true
is_marked_expired _ = false

pub data KeyFault : Type 0 where
  unknown_role : String → KeyFault
  no_provider : String → KeyFault
  unknown_key : String → KeyFault
  no_signing_key : String → KeyFault
  in_hardware : String → KeyFault
  not_in_hardware : String → KeyFault
  hsm_not_available : KeyFault
  missing_secret : String → KeyFault
  rotation_failed : KeyFault
  key_revoked : String → KeyFault
  key_expired : String → KeyFault

abbrev pub key_roles : List String
key_roles = "SIGNER" ∷ "VERIFIER" ∷ "KEM" ∷ "REDACTED" ∷ []

pub record KeyRecord : Type 0 where
  pub key_id : String
  pub role : String
  pub algorithm_id : String
  pub public_key_hex : String
  pub created_at : ℕ
  pub version : ℕ
  pub status : KeyStatus
  pub owner : String
  pub expires_at : Option ℕ
  pub hsm_backed : Bool

pub record SecretKeyRecord : Type 0 where
  pub key_id : String
  pub secret_key_hex : String

pub record KeyFiles : Type 0 where
  pub anchors : List KeyRecord
  pub secrets : List SecretKeyRecord

pub record KeyPair : Type 0 where
  pub algorithm_id : String
  pub public_key : String
  pub secret_key : String

-- What was generated: a key pair, or a key that stays in the hardware module.
pub data Generated : Type 0 where
  software : String → String → Generated
  hardware : String → String → Generated

-- `is_expired(now)`
abbrev pub is_expired : ℕ → KeyRecord → Bool
is_expired now r = elim r.expires_at [ none ↦ false | some t ↦ leb t now ]

abbrev pub has_key_id : String → KeyRecord → Bool
has_key_id id r = r.key_id == id

abbrev pub id_before : String → String → Bool
id_before i j = orders_codes lt (codes i) (codes j)

-- `anchors[key_id] = record`
abbrev pub set_anchor : KeyRecord → List KeyRecord → List KeyRecord
set_anchor r [] = r ∷ []
set_anchor r (s ∷ ss) =
    let rest = set_anchor r ss in
    if r.key_id == s.key_id
    then r ∷ ss
    else if id_before r.key_id s.key_id
    then r ∷ s ∷ ss
    else s ∷ rest

abbrev pub is_secret_of : String → SecretKeyRecord → Bool
is_secret_of id s = s.key_id == id

-- `secrets_map[key_id] = ...`; the map is only read by its keys.
abbrev pub set_secret : SecretKeyRecord → List SecretKeyRecord → List SecretKeyRecord
set_secret s [] = s ∷ []
set_secret s (t ∷ ts) =
    let rest = set_secret s ts in if t.key_id == s.key_id then s ∷ ts else t ∷ rest

-- `1 + max(...)` over the keys of the role and the owner that are not revoked.
abbrev pub counts_for : String → String → KeyRecord → Bool
counts_for role owner r = r.role == role && r.owner == owner && not (is_revoked r.status)

abbrev pub max_version : String → String → List KeyRecord → ℕ
max_version role owner [] = 0
max_version role owner (r ∷ rs) =
    let rest = max_version role owner rs in
    if counts_for role owner r && ltb rest r.version then r.version else rest

abbrev pub id_of : Generated → String → String → String → String
id_of (software public_key secret_key) owner algorithm token =
    joined (if owner == "" then "signer" else owner)
      (joined "-" (joined algorithm (joined "-" token)))
id_of (hardware key_id public_key) owner algorithm token = key_id

abbrev pub public_of : Generated → String
public_of (software public_key secret_key) = public_key
public_of (hardware key_id public_key) = public_key

abbrev pub is_hardware : Generated → Bool
is_hardware (software public_key secret_key) = false
is_hardware (hardware key_id public_key) = true

-- In whole seconds a lifetime is nothing or at least one second.
abbrev pub expiry : ℕ → Option ℕ → Option ℕ
expiry now none = none
expiry now (some lifetime) = if eqb lifetime 0 then none else some (now + lifetime)

abbrev pub new_record :
    ℕ → String → String → String → Option ℕ → String → Generated → List KeyRecord → KeyRecord
new_record now role algorithm owner lifetime token made anchors = record {
  key_id = id_of made owner algorithm token;
  role = role;
  algorithm_id = algorithm;
  public_key_hex = public_of made;
  created_at = now;
  version = max_version role owner anchors + 1;
  status = active;
  owner = owner;
  expires_at = expiry now lifetime;
  hsm_backed = is_hardware made;
}

abbrev pub store_secret : String → Generated → List SecretKeyRecord → List SecretKeyRecord
store_secret id (software public_key secret_key) secrets =
    set_secret (record { key_id = id; secret_key_hex = secret_key }) secrets
store_secret id (hardware key_id public_key) secrets = secrets

abbrev pub pair_of : String → Generated → KeyPair
pair_of algorithm (software public_key secret_key) = record {
  algorithm_id = algorithm;
  public_key = public_key;
  secret_key = secret_key;
}
pair_of algorithm (hardware key_id public_key) = record {
  algorithm_id = algorithm;
  public_key = public_key;
  secret_key = "";
}

-- `offers` says whether a signature (true) or a KEM provider of an algorithm exists.
module _ (offers : Bool → String → Bool) where
  unfoldable pub generate_keypair :
      ℕ
      → String
      → String
      → String
      → Option ℕ
      → String
      → Generated
      → KeyFiles
      → Result KeyFault (KeyPair × KeyFiles)
  generate_keypair now role algorithm owner lifetime token made files = do
    raise_if (not (contains role key_roles)) (unknown_role role)
    raise_if (not (offers (role == "SIGNER" || role == "VERIFIER") algorithm))
        (no_provider algorithm)
    let r = new_record now role algorithm owner lifetime token made files.anchors
    ok (
      pair_of algorithm made,
      record {
        anchors = set_anchor r files.anchors;
        secrets = store_secret r.key_id made files.secrets;
      },
    )

unfoldable pub get_record : String → KeyFiles → Result KeyFault KeyRecord
get_record id files = or_raise (first (has_key_id id) files.anchors) (unknown_key id)

abbrev pub keep : {A : Type 0} → (A → Bool) → List A → List A
keep p [] = []
keep p (x ∷ xs) = let rest = keep p xs in if p x then x ∷ rest else rest

-- `sorted(records, key=lambda r: (r.owner, -r.version))`
abbrev pub listed_first : KeyRecord → KeyRecord → Bool
listed_first r s = id_before r.owner s.owner || r.owner == s.owner && leb s.version r.version

abbrev pub of_role : Option String → KeyRecord → Bool
of_role none r = true
of_role (some role) r = role == "" || r.role == role

abbrev pub listed : Option String → Bool → KeyRecord → Bool
listed role include_inactive r = of_role role r && (include_inactive || is_active r.status)

unfoldable pub list_records : Option String → Bool → KeyFiles → List KeyRecord
list_records role include_inactive files =
    sort_by listed_first (keep (listed role include_inactive) files.anchors)

abbrev pub can_sign : ℕ → String → KeyRecord → Bool
can_sign now owner r = r.owner == owner && is_active r.status && not (is_expired now r)

abbrev pub secret_of : KeyFiles → KeyRecord → Result KeyFault (String × String)
secret_of files r = do
  raise_if r.hsm_backed (in_hardware r.key_id)
  s ← or_raise (first (is_secret_of r.key_id) files.secrets) (missing_secret r.key_id)
  ok (r.key_id, s.secret_key_hex)

unfoldable pub active_signing_key : ℕ → String → KeyFiles → Result KeyFault (String × String)
active_signing_key now owner files =
    or_raise (first (can_sign now owner) (list_records (some "SIGNER") true files))
      (no_signing_key owner)
    >>= secret_of files

unfoldable pub revoke : String → KeyFiles → Result KeyFault KeyFiles
revoke id files = do
  raise_if (not (any (has_key_id id) files.anchors)) (unknown_key id)
  ok (record files {
    anchors = update (has_key_id id) (λ r. record r { status = revoked }) files.anchors;
  })

abbrev pub is_due : ℕ → KeyRecord → Bool
is_due now r = is_active r.status && is_expired now r

abbrev pub ids_of : List KeyRecord → List String
ids_of [] = []
ids_of (r ∷ rs) = r.key_id ∷ ids_of rs

unfoldable pub expire_due_keys : ℕ → KeyFiles → List String × KeyFiles
expire_due_keys now files = (
  ids_of (keep (is_due now) files.anchors),
  record files { anchors = update (is_due now) (λ r. record r { status = expired }) files.anchors },
)

-- `rec.expires_at and ...`: a time of 0 is none.
abbrev pub expires_by : ℕ → KeyRecord → Bool
expires_by horizon r = elim r.expires_at [
  | none ↦ false
  | some t ↦ not (eqb t 0) && is_active r.status && leb t horizon
]

unfoldable pub keys_expiring_within : ℕ → ℕ → KeyFiles → List KeyRecord
keys_expiring_within now seconds files =
    keep (expires_by (now + seconds)) (list_records none true files)

unfoldable pub trusted_public_key : ℕ → String → KeyFiles → Result KeyFault String
trusted_public_key now id files = do
  r ← get_record id files
  raise_if (is_revoked r.status) (key_revoked id)
  raise_if (is_marked_expired r.status || is_expired now r) (key_expired id)
  ok r.public_key_hex
