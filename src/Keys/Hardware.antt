-- ===== src/Keys/Hardware.antt =====
-- `sign_with_hsm` and `verify_with_hsm` of qsmlops/crypto/keys.py. The hardware module is an argument.
use sat_sa_with_pqc.Base.{
  String, Bool, false, not, Result, ok, ◌>>=◌, ◌>>◌, raise_if, if◌then◌else◌,
}
use sat_sa_with_pqc.Keys.Store.{KeyFault, not_in_hardware, hsm_not_available, KeyFiles, get_record}

-- What the store takes from the module: whether it is available, and what it signs and verifies with the
-- key of an id.
pub record Hardware : Type 0 where
  pub is_available : Bool
  pub sign : String → String → Result KeyFault String
  pub verify : String → String → String → Result KeyFault Bool

unfoldable pub sign_with_hsm : Hardware → String → String → KeyFiles → Result KeyFault String
sign_with_hsm h key_id message files = do
  r ← get_record key_id files
  raise_if (not r.hsm_backed) (not_in_hardware key_id)
  raise_if (not h.is_available) hsm_not_available
  h.sign key_id message

abbrev pub verify_in : Hardware → String → String → String → Bool → Result KeyFault Bool
verify_in h key_id message signature hsm_backed =
    if hsm_backed
    then (raise_if (not h.is_available) hsm_not_available >> h.verify key_id message signature)
    else ok false

unfoldable pub verify_with_hsm :
    Hardware → String → String → String → KeyFiles → Result KeyFault Bool
verify_with_hsm h key_id message signature files = do
  r ← get_record key_id files
  verify_in h key_id message signature r.hsm_backed
