-- ===== src/Keys/Revocation.antt =====
-- A revoked key is out of use.
use sat_sa_with_pqc.Base.{
  ℕ, String, ◌==◌, eq_iff, ◌≡◌, ◌≢◌, ◌∙◌, refl, sym, ap, subst, inl, inr, Bool, true, false, not,
  Option, none, some, List, [], ◌∷◌, ok, err, >>=-eq-ok, same_value, or_raise, raise_if, All,
  All-always, Bool-cases, if_true, arith,
}
use sat_sa_with_pqc.Base.Rows.{
  first, any, update, update_row, All-first, All-updated, first-matches, first-update,
}
use sat_sa_with_pqc.Base.Sorting.{sort_by, All-sort_by}
use sat_sa_with_pqc.Keys.Store.{
  KeyFault, key_revoked, unknown_key, no_signing_key, in_hardware, missing_secret, revoked,
  is_active, KeyRecord, KeyFiles, has_key_id, is_secret_of, keep, listed, listed_first,
  list_records, can_sign, secret_of, active_signing_key, get_record, revoke, trusted_public_key,
}
use sat_sa_with_pqc.Keys.Hardware.{Hardware, sign_with_hsm, verify_with_hsm}
use sat_sa_with_pqc.Keys.Lists.{All-keep}

any-found :
    {A : Type 0} (p : A → Bool) (xs : List A) → any p xs ≡ true → (x : A) × (first p xs ≡ some x)
any-found p [] h = cc h
any-found p (x ∷ xs) h = elim (Bool-cases (p x)) [
  | inl hit ↦ (x, sym (if_true (some x) (first p xs) hit))
  | inr miss ↦ let (y, e) = any-found p xs (ground (arith, h, miss)) in (y, rw miss e)
]

or_raise-some :
    {A : Type 0} (o : Option A) (e : KeyFault) (a : A) → or_raise o e ≡ ok a → o ≡ some a
or_raise-some none e a h = cc h
or_raise-some (some x) e a h = ap some (same_value (or_raise (some x) e) refl h)

passed : (b : Bool) (e : KeyFault) → raise_if (not b) e ≡ ok tt → b ≡ true
passed true e h = refl
passed false e h = cc h

abbrev revoked_record : KeyRecord → KeyRecord
revoked_record r = record r { status = revoked }

keeps_key_id :
    (id : String) (r : KeyRecord)
    → has_key_id id (update_row (has_key_id id) revoked_record r) ≡ has_key_id id r
keeps_key_id id r = elim (Bool-cases (has_key_id id r)) [
  | inl hit ↦ rw hit hit
  | inr miss ↦ rw miss miss
]

-- No row with the id is active.
none_active :
    (id : String) (anchors : List KeyRecord)
    → All
        (λ r. r.key_id ≡ id → is_active r.status ≡ false)
        (update (has_key_id id) revoked_record anchors)
none_active id anchors =
    All-updated (λ r. Unit {0}) (λ r. r.key_id ≡ id → is_active r.status ≡ false) (has_key_id id)
      revoked_record anchors
      (λ r u. elim (Bool-cases (has_key_id id r)) [
        | inl hit ↦ rw hit (λ e. refl)
        | inr miss ↦ rw miss (λ e. cc ((eq_iff r.key_id id).1 e, miss))
      ])
      (All-always (λ r. Unit {0}) anchors (λ r. tt))

-- The key that a signature is made with is the one that was found.
secret_of-id :
    (files : KeyFiles) (r : KeyRecord) (id secret : String)
    → secret_of files r ≡ ok (id, secret)
    → r.key_id ≡ id
secret_of-id files r id secret h =
    let (_, _, h1) = >>=-eq-ok (raise_if r.hsm_backed (in_hardware r.key_id)) _ h in
    let (s, _, h2) =
      >>=-eq-ok (or_raise (first (is_secret_of r.key_id) files.secrets) (missing_secret r.key_id)) _
        h1 in
    ap (λ (p : String × String). p.0) (same_value _ refl h2)

signing_key-active :
    (now : ℕ) (owner id secret : String) (files : KeyFiles)
    → All (λ r. r.key_id ≡ id → is_active r.status ≡ false) files.anchors
    → active_signing_key now owner files ≢ ok (id, secret)
unfolding active_signing_key list_records
signing_key-active now owner id secret files none_is h =
    let rows = keep (listed (some "SIGNER") true) files.anchors in
    let (r, got, h1) =
      >>=-eq-ok
        (or_raise (first (can_sign now owner) (sort_by listed_first rows)) (no_signing_key owner))
        (secret_of files) h in
    let found =
      or_raise-some (first (can_sign now owner) (sort_by listed_first rows)) (no_signing_key owner)
        r got in
    let kept =
      All-keep (listed (some "SIGNER") true) (λ r. r.key_id ≡ id → is_active r.status ≡ false)
        files.anchors none_is in
    let sorted = All-sort_by listed_first _ rows kept in
    let own = All-first _ (can_sign now owner) (sort_by listed_first rows) r sorted found in
    let hit = first-matches (can_sign now owner) (sort_by listed_first rows) r found in
    let is_on : is_active r.status ≡ true = ground (arith, hit) in
    cc (is_on, own.0 (secret_of-id files r id secret h1))

-- The key is not trusted and is nobody's signing key, and the hardware module is asked as before.
abbrev IsOut : String → ℕ → KeyFiles → KeyFiles → Type 0
IsOut id now before files =
    (trusted_public_key now id files ≡ err (key_revoked id))
    × ((owner secret : String) → active_signing_key now owner files ≢ ok (id, secret))
    × ((h : Hardware) (message signature : String)
        → (sign_with_hsm h id message files ≡ sign_with_hsm h id message before)
          × (verify_with_hsm h id message signature files
              ≡ verify_with_hsm h id message signature before))

-- Only a key that exists can be revoked. A revoked key is not trusted any more, and `active_signing_key`
-- does not give it to any owner; but `sign_with_hsm` and `verify_with_hsm` answer for it as before the
-- revocation.
pub revoke_lem :
    (id : String) (files after : KeyFiles) (now : ℕ)
    → revoke id files ≡ ok after
    → (any (has_key_id id) files.anchors ≡ true)
      × (trusted_public_key now id after ≡ err (key_revoked id))
      × ((owner secret : String) → active_signing_key now owner after ≢ ok (id, secret))
      × ((h : Hardware) (message signature : String)
          → (sign_with_hsm h id message after ≡ sign_with_hsm h id message files)
            × (verify_with_hsm h id message signature after
                ≡ verify_with_hsm h id message signature files))
unfolding revoke trusted_public_key get_record sign_with_hsm verify_with_hsm
revoke_lem id files after now h =
    let (_, exists, h1) =
      >>=-eq-ok (raise_if (not (any (has_key_id id) files.anchors)) (unknown_key id)) _ h in
    let known : any (has_key_id id) files.anchors ≡ true =
      passed (any (has_key_id id) files.anchors) (unknown_key id) exists in
    let (r, e) = any-found (has_key_id id) files.anchors known in
    let hit : (r.key_id == id) ≡ true = first-matches (has_key_id id) files.anchors r e in
    let found : first (has_key_id id) (update (has_key_id id) revoked_record files.anchors)
        ≡ some (revoked_record r) =
      first-update (has_key_id id) (has_key_id id) revoked_record files.anchors r (keeps_key_id id)
        e
      ∙ ap some (sym (if_true (revoked_record r) r hit)) in
    let out = subst (IsOut id now files) (same_value _ refl h1) (
      rw found refl,
      λ owner secret. signing_key-active now owner id secret _ (none_active id files.anchors),
      λ h message signature. (rw (found, e) refl, rw (found, e) refl),
    ) in
    (known, out.0, out.1, out.2)
