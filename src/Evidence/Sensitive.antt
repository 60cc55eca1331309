-- ===== src/Evidence/Sensitive.antt =====
-- `_contains_sensitive` of qsmlops/evidence/ledger.py: the scan of a packet for field names that
-- must not be persisted. `str.lower` is modelled on ASCII letters.
use Prim.Native.Char.{code}
use sat_sa_with_pqc.Base.{
  ℕ, ◌+◌, String, ◌==◌, ◌≡◌, Bool, true, false, ◌&&◌, ◌||◌, Option, none, some, List, [], ◌∷◌,
  arith, ◌↔◌, refl, leb, eqb, map, if◌then◌else◌,
}
use sat_sa_with_pqc.Json.{Json, Items, Dict, nil, cons, end, field, null, str, num, bool, arr, obj}

abbrev pub codes : String → List ℕ
codes String.[] = []
codes (String.◌∷◌ c s) = code c ∷ codes s

abbrev pub lower_code : ℕ → ℕ
lower_code c = if leb b'A' c && leb c b'Z' then c + 32 else c

abbrev pub lower : String → List ℕ
lower s = map lower_code (codes s)

abbrev pub is_prefix : List ℕ → List ℕ → Bool
is_prefix [] ys = true
is_prefix (x ∷ xs) [] = false
is_prefix (x ∷ xs) (y ∷ ys) = eqb x y && is_prefix xs ys

-- `sub in s`
abbrev pub is_infix : List ℕ → List ℕ → Bool
is_infix xs [] = is_prefix xs []
is_infix xs (y ∷ ys) = is_prefix xs (y ∷ ys) || is_infix xs ys

abbrev pub equal_codes : List ℕ → List ℕ → Bool
equal_codes [] [] = true
equal_codes [] (y ∷ ys) = false
equal_codes (x ∷ xs) [] = false
equal_codes (x ∷ xs) (y ∷ ys) = eqb x y && equal_codes xs ys

abbrev pub sensitive_substrings : List String
sensitive_substrings =
    "private_key" ∷ "secret_key" ∷ "secretkey" ∷ "hsm_pin" ∷ "pin" ∷ "passphrase" ∷ "credential"
    ∷ "privatekey" ∷ []

abbrev pub pin_names : List String
pin_names = "pin" ∷ "hsm_pin" ∷ "user_pin" ∷ "so_pin" ∷ "token_pin" ∷ []

abbrev is_one_of : List ℕ → List String → Bool
is_one_of lk [] = false
is_one_of lk (name ∷ names) = equal_codes lk (codes name) || is_one_of lk names

-- The loop over the substrings, at one key.
abbrev matches_any : List ℕ → List String → Bool
matches_any lk [] = false
matches_any lk (sensitive ∷ rest) =
    (if sensitive == "pin" then is_one_of lk pin_names else is_infix (codes sensitive) lk)
    || matches_any lk rest

unfoldable pub key_is_sensitive : String → Bool
key_is_sensitive k = matches_any (lower k) sensitive_substrings

-- `if found: return found`, or go on with the rest.
abbrev pub first_of_two : Option String → Option String → Option String
first_of_two (some k) rest = some k
first_of_two none rest = rest

unfoldable mutual
  pub contains_sensitive : Json → Option String
  contains_sensitive (obj d) = scan_fields d
  contains_sensitive (arr xs) = scan_items xs
  contains_sensitive null = none
  contains_sensitive (bool b) = none
  contains_sensitive (num n) = none
  contains_sensitive (str s) = none

  pub scan_items : Items → Option String
  scan_items nil = none
  scan_items (cons x xs) = first_of_two (contains_sensitive x) (scan_items xs)

  pub scan_fields : Dict → Option String
  scan_fields end = none
  scan_fields (field k v d) =
      if key_is_sensitive k then some k else first_of_two (contains_sensitive v) (scan_fields d)

-- No key anywhere in the value is sensitive.
abbrev mutual
  pub IsClean : Json → Type 0
  IsClean (obj d) = IsCleanDict d
  IsClean (arr xs) = IsCleanItems xs
  IsClean null = Unit
  IsClean (bool b) = Unit
  IsClean (num n) = Unit
  IsClean (str s) = Unit

  pub IsCleanItems : Items → Type 0
  IsCleanItems nil = Unit
  IsCleanItems (cons x xs) = IsClean x × IsCleanItems xs

  pub IsCleanDict : Dict → Type 0
  IsCleanDict end = Unit
  IsCleanDict (field k v d) = (key_is_sensitive k ≡ false) × IsClean v × IsCleanDict d

mutual
  unfolding contains_sensitive

  IsClean-value : (v : Json) → (contains_sensitive v ≡ none) ↔ IsClean v
  IsClean-value (obj d) = clean_fields d
  IsClean-value (arr xs) = clean_items xs
  IsClean-value null = (λ h. tt, λ h. refl)
  IsClean-value (bool b) = (λ h. tt, λ h. refl)
  IsClean-value (num n) = (λ h. tt, λ h. refl)
  IsClean-value (str s) = (λ h. tt, λ h. refl)

  clean_items : (xs : Items) → (scan_items xs ≡ none) ↔ IsCleanItems xs
  clean_items nil = (λ h. tt, λ h. refl)
  clean_items (cons x xs) =
      let a = IsClean-value x in
      let b = clean_items xs in
      (λ h. ground (arith, a.0, b.0), λ h. ground (arith, a.1 h.0, b.1 h.1))

  clean_fields : (d : Dict) → (scan_fields d ≡ none) ↔ IsCleanDict d
  clean_fields end = (λ h. tt, λ h. refl)
  clean_fields (field k v d) =
      let a = IsClean-value v in
      let b = clean_fields d in
      (λ h. ground (arith, a.0, b.0), λ h. ground (arith, h.0, a.1 h.1, b.1 h.2))

-- The scan returns no key exactly when no key at any depth of the value is sensitive.
pub contains_sensitive_lem : (v : Json) → (contains_sensitive v ≡ none) ↔ IsClean v
contains_sensitive_lem v = IsClean-value v
