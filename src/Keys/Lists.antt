-- ===== src/Keys/Lists.antt =====
-- Lemmas on the lists of records that the key store filters, sorts and updates.
use sat_sa_with_pqc.Base.{
  ◌≡◌, ◌∙◌, refl, sym, ap, subst, inl, inr, ◌==◌, Bool, true, false, none, some, List, [], ◌∷◌, All,
  All-map, OneOf, if_true, if_false, Bool-cases, Option-cases, eq_refl,
}
use sat_sa_with_pqc.Base.Rows.{first, All-first, first-matches}
use sat_sa_with_pqc.Keys.Store.{
  KeyRecord, SecretKeyRecord, is_secret_of, set_secret, set_anchor, id_before, ids_of, keep,
}

module _ {A : Type 0} (p : A → Bool) where
  pub keep-All : (P : A → Type 0) (xs : List A) → All P (keep p xs) → All (λ x. p x ≡ true → P x) xs
  keep-All P [] h = tt
  keep-All P (x ∷ xs) h = elim (Bool-cases (p x)) [
    | inl kept ↦
        let k = subst (All P) (sym (if_true (x ∷ keep p xs) (keep p xs) kept)) h in
        ((λ e. k.0), keep-All P xs k.1)
    | inr dropped ↦
        let k = subst (All P) (sym (if_false (x ∷ keep p xs) (keep p xs) dropped)) h in
        ((λ e. cc (e, dropped)), keep-All P xs k)
  ]

  -- What is kept has the property, and passes the test.
  pub All-keep :
      (P : A → Type 0) (xs : List A) → All P xs → All (λ x. P x × (p x ≡ true)) (keep p xs)
  All-keep P [] h = tt
  All-keep P (x ∷ xs) (h, hs) = elim (Bool-cases (p x)) [
    | inl kept ↦ rw kept ((h, kept), All-keep P xs hs)
    | inr dropped ↦ rw dropped (All-keep P xs hs)
  ]

  pub first-none : (xs : List A) → first p xs ≡ none → All (λ x. p x ≡ false) xs
  first-none [] h = tt
  first-none (x ∷ xs) h = elim (Bool-cases (p x)) [
    | inl hit ↦ let odd : some x ≡ none = if_true (some x) (first p xs) hit ∙ h in cc odd
    | inr miss ↦ (miss, first-none xs (if_false (some x) (first p xs) miss ∙ h))
  ]

  -- The row that is found is the only one that matches.
  pub first-only :
      (r : A) (xs : List A)
      → All (λ x. p x ≡ true → x ≡ r) xs
      → ¬ All (λ x. p x ≡ false) xs
      → first p xs ≡ some r
  first-only r xs only one = elim (Option-cases (first p xs)) [
    | inl nothing ↦ elim (one (first-none xs nothing)) [ ]
    | inr (x, found) ↦
        let same = All-first (λ x. p x ≡ true → x ≡ r) p xs x only found in
        found ∙ ap some (same (first-matches p xs x found))
  ]

pub All-ids_of : (rs : List KeyRecord) → All (λ r. OneOf r.key_id (ids_of rs)) rs
All-ids_of [] = tt
All-ids_of (r ∷ rs) = (
  inl refl,
  All-map (λ s. OneOf s.key_id (ids_of rs)) (λ s. OneOf s.key_id (ids_of (r ∷ rs))) rs
      (λ s h. inr h) (All-ids_of rs),
)

pub All-set_anchor :
    (P : KeyRecord → Type 0) (r : KeyRecord) (rs : List KeyRecord)
    → P r
    → All P rs
    → All P (set_anchor r rs)
All-set_anchor P r [] h hs = (h, tt)
All-set_anchor P r (s ∷ ss) h (k, ks) = elim (Bool-cases (r.key_id == s.key_id)) [
  | inl same ↦ rw same (h, ks)
  | inr other ↦ elim (Bool-cases (id_before r.key_id s.key_id)) [
    | inl before ↦ rw (other, before) (h, (k, ks))
    | inr after ↦ rw (other, after) (k, All-set_anchor P r ss h ks)
  ]
]

pub set_anchor-All :
    (P : KeyRecord → Type 0) (r : KeyRecord) (rs : List KeyRecord) → All P (set_anchor r rs) → P r
set_anchor-All P r [] h = h.0
set_anchor-All P r (s ∷ ss) h = elim (Bool-cases (r.key_id == s.key_id)) [
  | inl same ↦ (rw same at h).0
  | inr other ↦ elim (Bool-cases (id_before r.key_id s.key_id)) [
    | inl before ↦ (rw (other, before) at h).0
    | inr after ↦ set_anchor-All P r ss (rw (other, after) at h).1
  ]
]

pub first-set_anchor :
    (q : KeyRecord → Bool) (r : KeyRecord) (rs : List KeyRecord)
    → q r ≡ true
    → All (λ s. q s ≡ false) rs
    → first q (set_anchor r rs) ≡ some r
first-set_anchor q r rs its others =
    first-only q r (set_anchor r rs)
      (All-set_anchor (λ s. q s ≡ true → s ≡ r) r rs (λ e. refl)
        (All-map _ (λ s. q s ≡ true → s ≡ r) rs (λ s f e. cc (e, f)) others))
      (λ all. cc (its, set_anchor-All (λ s. q s ≡ false) r rs all))

pub first-set_secret :
    (s : SecretKeyRecord) (ss : List SecretKeyRecord)
    → first (is_secret_of s.key_id) (set_secret s ss) ≡ some s
first-set_secret s [] = rw (eq_refl s.key_id) refl
first-set_secret s (t ∷ ts) = elim (Bool-cases (t.key_id == s.key_id)) [
  | inl same ↦ rw (same, eq_refl s.key_id) refl
  | inr other ↦ rw (other, other) (first-set_secret s ts)
]
