-- ===== src/Keys/Signing.antt =====
-- After a rotation the new key is the one that signs.
use sat_sa_with_pqc.Base.{
  ℕ, ◌<◌, String, ◌==◌, eq_iff, eq_refl, ◌≡◌, ◌∙◌, refl, sym, ◌⊎◌, inl, inr, Bool, true, false,
  ◌&&◌, Option, none, some, List, [], ◌∷◌, ok, All, All-map, OneOf, Bool-cases, leb, arith,
}
use sat_sa_with_pqc.Base.Rows.{first, All-update, All-updated, update_row}
use sat_sa_with_pqc.Base.Sorting.{sort_by, All-sort_by, sort_by-All}
use sat_sa_with_pqc.Keys.Store.{
  rotated, KeyRecord, SecretKeyRecord, KeyFiles, Generated, software, is_expired, has_key_id,
  set_secret, set_anchor, ids_of, keep, listed, listed_first, list_records, can_sign,
  active_signing_key, id_of, expiry, new_record, generate_keypair,
}
use sat_sa_with_pqc.Keys.Rotation.{
  is_signer_of, retire_keys, algorithm_or, has_public_key, rotate_signer,
}
use sat_sa_with_pqc.Keys.Lists.{
  keep-All, All-keep, first-only, All-ids_of, All-set_anchor, set_anchor-All, first-set_anchor,
  first-set_secret,
}

abbrev pub signs : String → KeyRecord → Bool
signs owner r = r.role == "SIGNER" && is_signer_of owner r

abbrev Pending : String → List String → KeyRecord → Type 0
Pending owner ids r = (signs owner r ≡ false) ⊎ OneOf r.key_id ids

-- A row of one step of the retirement.
Pending-retired :
    (owner id : String) (ids : List String) (r : KeyRecord)
    → Pending owner (id ∷ ids) r
    → Pending owner ids (update_row (has_key_id id) (λ r. record r { status = rotated }) r)
Pending-retired owner id ids r h = elim (Bool-cases (has_key_id id r)) [
  | inl hit ↦ rw hit (inl (ground arith))
  | inr miss ↦ rw miss (elim h [
    | inl quiet ↦ inl quiet
    | inr (inl same) ↦ let odd : true ≡ false = sym ((eq_iff r.key_id id).1 same) ∙ miss in cc odd
    | inr (inr later) ↦ inr later
  ])
]

retire_keys-quiet :
    (owner : String) (olds anchors : List KeyRecord)
    → All (Pending owner (ids_of olds)) anchors
    → All (λ r. signs owner r ≡ false) (retire_keys olds anchors)
retire_keys-quiet owner [] anchors h =
    All-map _ (λ r. signs owner r ≡ false) anchors
      (λ r k. elim k [ inl quiet ↦ quiet | inr none_of ↦ elim none_of [ ] ]) h
retire_keys-quiet owner (old ∷ olds) anchors h = retire_keys-quiet owner olds _ (
    All-updated (Pending owner (old.key_id ∷ ids_of olds)) (Pending owner (ids_of olds))
      (has_key_id old.key_id) (λ r. record r { status = rotated }) anchors
      (Pending-retired owner old.key_id (ids_of olds)) h)

abbrev signers : String → List KeyRecord → List KeyRecord
signers owner anchors =
    keep (is_signer_of owner) (sort_by listed_first (keep (listed (some "SIGNER") true) anchors))

signers-Pending :
    (owner : String) (anchors : List KeyRecord)
    → All (Pending owner (ids_of (signers owner anchors))) anchors
signers-Pending owner anchors =
    let all = sort_by listed_first (keep (listed (some "SIGNER") true) anchors) in
    let found : KeyRecord → Type 0 = λ r. OneOf r.key_id (ids_of (signers owner anchors)) in
    let mine = keep-All (is_signer_of owner) found all (All-ids_of (signers owner anchors)) in
    let sorted =
      sort_by-All listed_first (λ r. is_signer_of owner r ≡ true → found r)
        (keep (listed (some "SIGNER") true) anchors) mine in
    let every =
      keep-All (listed (some "SIGNER") true) (λ r. is_signer_of owner r ≡ true → found r) anchors
        sorted in
    All-map _ (Pending owner (ids_of (signers owner anchors))) anchors
      (λ r h. elim (Bool-cases (signs owner r)) [
        | inl loud ↦ inr (h (ground (arith, loud)) (ground (arith, loud)))
        | inr quiet ↦ inl quiet
      ])
      every

retire_keys-All :
    (P : KeyRecord → Type 0) (olds anchors : List KeyRecord)
    → ((r : KeyRecord) → P r → P (record r { status = rotated }))
    → All P anchors
    → All P (retire_keys olds anchors)
retire_keys-All P [] anchors keeps h = h
retire_keys-All P (old ∷ olds) anchors keeps h = retire_keys-All P olds _ keeps (
    All-update P (has_key_id old.key_id) (λ r. record r { status = rotated }) anchors
      (λ r e. keeps r) h)

-- The only key of the owner that signs is the one that is found.
signing_key-only :
    (later : ℕ) (owner : String) (r : KeyRecord) (quiet : List KeyRecord)
    → All (λ s. signs owner s ≡ false) quiet
    → signs owner r ≡ true
    → is_expired later r ≡ false
    → first
        (can_sign later owner)
        (sort_by listed_first (keep (listed (some "SIGNER") true) (set_anchor r quiet)))
      ≡ some r
signing_key-only later owner r quiet h signs_it live =
    let anchors = set_anchor r quiet in
    let listed_in = listed (some "SIGNER") true in
    let either =
      All-set_anchor (λ s. (signs owner s ≡ false) ⊎ (s ≡ r)) r quiet (inr refl)
        (All-map _ (λ s. (signs owner s ≡ false) ⊎ (s ≡ r)) quiet (λ s. inl) h) in
    let kept = All-keep listed_in (λ s. (signs owner s ≡ false) ⊎ (s ≡ r)) anchors either in
    let sorted =
      All-sort_by listed_first (λ s. ((signs owner s ≡ false) ⊎ (s ≡ r)) × (listed_in s ≡ true))
        (keep listed_in anchors) kept in
    first-only (can_sign later owner) r (sort_by listed_first (keep listed_in anchors))
      (All-map _ (λ s. can_sign later owner s ≡ true → s ≡ r)
        (sort_by listed_first (keep listed_in anchors))
        (λ s k e. elim k.0 [
          | inl no_sign ↦ let odd : ⊥ = ground (arith, e, no_sign, k.1) in elim odd [ ]
          | inr it ↦ it
        ])
        sorted)
      (λ all.
        let unsorted =
          sort_by-All listed_first (λ s. can_sign later owner s ≡ false) (keep listed_in anchors)
            all in
        let every = keep-All listed_in (λ s. can_sign later owner s ≡ false) anchors unsorted in
        let own =
          set_anchor-All (λ s. listed_in s ≡ true → can_sign later owner s ≡ false) r quiet every in
        let is_listed : listed_in r ≡ true = ground (arith, signs_it) in
        let can : can_sign later owner r ≡ true = ground (arith, signs_it, live) in
        cc (can, own is_listed))

abbrev pub NotDue : ℕ → Option ℕ → Type 0
NotDue later none = Unit
NotDue later (some t) = later < t

not_due :
    (later : ℕ) (t : Option ℕ)
    → NotDue later t
    → (elim t [ none ↦ false | some t ↦ leb t later ]) ≡ false
not_due later none h = refl
not_due later (some t) h = ground (arith, h)

-- Nobody else signs for the owner.
abbrev pub IsOnlySigner : String → String → KeyRecord → Type 0
IsOnlySigner owner id r = signs owner r ≡ true → r.key_id ≡ id

-- A rotation to an algorithm that has a provider succeeds, if a key is generated in software whose public
-- key is new. It gives the id of the new key, which is then the only active signing key of the owner,
-- and the signing key that is used until it expires.
pub rotate_signer_lem :
    (offers : Bool → String → Bool) (clock later : ℕ) (owner : String)
    (new_algorithm : Option String) (lifetime : Option ℕ) (token public_key secret_key : String)
    (files : KeyFiles)
    → let algorithm : String = algorithm_or new_algorithm (signers owner files.anchors) in
      let made : Generated = software public_key secret_key in
      let id : String = id_of made owner algorithm token in
      offers true algorithm ≡ true
      → All (λ r. has_public_key public_key r ≡ false) files.anchors
      → NotDue later (expiry clock lifetime)
      → (after : KeyFiles) × (rotate_signer offers clock owner new_algorithm lifetime
            (record { token = token; made = made })
            files
          ≡ (ok id, after))
        × All (IsOnlySigner owner id) after.anchors
        × (active_signing_key later owner after ≡ ok (id, secret_key))
unfolding rotate_signer generate_keypair list_records active_signing_key
rotate_signer_lem offers clock later owner new_algorithm lifetime token public_key secret_key files
      offered new live =
    let olds = signers owner files.anchors in
    let quiet = retire_keys olds files.anchors in
    let made : Generated = software public_key secret_key in
    let r =
      new_record clock "SIGNER" (algorithm_or new_algorithm olds) owner lifetime token made quiet in
    let silent = retire_keys-quiet owner olds files.anchors (signers-Pending owner files.anchors) in
    let unseen =
      retire_keys-All (λ s. has_public_key public_key s ≡ false) olds files.anchors (λ s h. h)
        new in
    let found = first-set_anchor (has_public_key public_key) r quiet (eq_refl public_key) unseen in
    let signs_it : signs owner r ≡ true = rw (eq_refl owner) refl in
    let signing =
      signing_key-only later owner r quiet silent signs_it
        (not_due later (expiry clock lifetime) live) in
    let secret : SecretKeyRecord = record { key_id = r.key_id; secret_key_hex = secret_key } in
    (
      record { anchors = set_anchor r quiet; secrets = set_secret secret files.secrets },
      rw (offered, found) refl,
      All-set_anchor (IsOnlySigner owner r.key_id) r quiet (λ e. refl)
          (All-map _ (IsOnlySigner owner r.key_id) quiet (λ s h e. cc (e, h)) silent),
      rw (signing, first-set_secret secret files.secrets) refl,
    )
