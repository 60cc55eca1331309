-- ===== src/Evidence/Codec.antt =====
-- What qsmlops/crypto/hashing.py and the ledger take from the `json` and `hashlib` modules.
use sat_sa_with_pqc.Base.{
  ℕ, suc, String, ◌≡◌, Bool, false, true, ◌&&◌, ◌||◌, Option, some, leb, eqb,
}
use sat_sa_with_pqc.Json.{Json}
use Prim.Native.Char.{Char, code}

-- `c in "0123456789abcdef"`
abbrev pub is_hex : Char → Bool
is_hex ch = let c = code ch in leb b'0' c && leb c b'9' || leb b'a' c && leb c b'f'

abbrev pub text_length : String → ℕ
text_length String.[] = 0
text_length (String.◌∷◌ c s) = suc (text_length s)

abbrev pub all_hex : String → Bool
all_hex String.[] = true
all_hex (String.◌∷◌ c s) = is_hex c && all_hex s

-- Not `ArtifactStore._validate_digest`'s "malformed": 64 lower-case hexadecimal digits.
unfoldable pub is_digest : String → Bool
is_digest s = eqb (text_length s) 64 && all_hex s

-- The texts, with `json.dumps(sort_keys=True, separators=(",", ":"))`, `canonical_json`,
-- `json.loads` (`none` is ValueError), `str.strip`, the test for the empty text, and the digest
-- `sha3_hex` of a text's UTF-8 bytes.
pub record Codec : Type 1 where
  pub Text : Type 0
  pub dumps : Json → Text
  pub canonical_json : Json → Text
  pub loads : Text → Option Json
  pub strip : Text → Text
  pub is_empty : Text → Bool
  pub sha3_hex : Text → String
  pub loads-dumps : (v : Json) → loads (dumps v) ≡ some v
  pub loads-canonical_json : (v : Json) → loads (canonical_json v) ≡ some v
  pub strip-dumps : (v : Json) → strip (dumps v) ≡ dumps v
  pub is_empty-dumps : (v : Json) → is_empty (dumps v) ≡ false
  pub is_digest-sha3_hex : (t : Text) → is_digest (sha3_hex t) ≡ true

module _ (c : Codec) where
  open c use {sha3_hex, canonical_json}

  -- `digest_document`: SHA3-256 over the canonical JSON form of a document.
  abbrev pub digest_document : Json → String
  digest_document doc = sha3_hex (canonical_json doc)
