-- ===== src/Base/Rows.antt =====
-- Tables as lists of rows: the first row that a query selects, and an update of all that match.
use mathlib.Core.Path.{◌≡◌, refl, ap, subst}
use mathlib.Core.Logic.{inl, inr}
use mathlib.Core.Bool.{Bool, true, false, ◌||◌}
use mathlib.Core.Option.{Option, none, some}
use mathlib.Core.List.{List, [], ◌∷◌, ◌++◌}
use native.Mathlib.Omega.{arith}
use sat_sa_with_pqc.Base.Tests.{if◌then◌else◌, Bool-cases}
use sat_sa_with_pqc.Base.Lists.{All}

module _ {ℓ} {A : Type ℓ} where
  -- `UPDATE ... WHERE`, of one row and of a table.
  abbrev pub update_row : (A → Bool) → (A → A) → A → A
  update_row p f x = if p x then f x else x

  abbrev pub update : (A → Bool) → (A → A) → List A → List A
  update p f [] = []
  update p f (x ∷ xs) = update_row p f x ∷ update p f xs

  -- `query_one`
  abbrev pub first : (A → Bool) → List A → Option A
  first p [] = none
  first p (x ∷ xs) = if p x then some x else first p xs

  -- `EXISTS`
  abbrev pub any : (A → Bool) → List A → Bool
  any p [] = false
  any p (x ∷ xs) = p x || any p xs

  pub All-update {κ} :
      (P : A → Type κ) (p : A → Bool) (f : A → A) (xs : List A)
      → ((x : A) → p x ≡ true → P x → P (f x))
      → All P xs
      → All P (update p f xs)
  All-update P p f [] keeps h = tt
  All-update P p f (x ∷ xs) keeps (h, hs) = elim (Bool-cases (p x)) [
    | inl hit ↦ (rw hit (keeps x hit h), All-update P p f xs keeps hs)
    | inr miss ↦ (rw miss h, All-update P p f xs keeps hs)
  ]

  -- The row that is found matches, and is one of the rows.
  pub first-matches : (p : A → Bool) (xs : List A) (x : A) → first p xs ≡ some x → p x ≡ true
  first-matches p [] x h = cc
  first-matches p (y ∷ ys) x h = elim (Bool-cases (p y)) [
    | inl hit ↦ ground (arith, hit, h)
    | inr miss ↦ first-matches p ys x (ground (arith, miss, h))
  ]

  pub All-first {κ} :
      (P : A → Type κ) (p : A → Bool) (xs : List A) (x : A) → All P xs → first p xs ≡ some x → P x
  All-first P p [] x h e = cc
  All-first P p (y ∷ ys) x (h, hs) e = elim (Bool-cases (p y)) [
    | inl hit ↦ let same : y ≡ x = ground (arith, hit, e) in subst P same h
    | inr miss ↦ All-first P p ys x hs (ground (arith, miss, e))
  ]

  -- Every row of an updated table comes from a row of the table.
  pub All-updated {κ μ} :
      (P : A → Type κ) (Q : A → Type μ) (p : A → Bool) (f : A → A) (xs : List A)
      → ((x : A) → P x → Q (update_row p f x))
      → All P xs
      → All Q (update p f xs)
  All-updated P Q p f [] keeps h = tt
  All-updated P Q p f (x ∷ xs) keeps (h, hs) = (keeps x h, All-updated P Q p f xs keeps hs)

  -- A query that the update does not affect finds the updated row.
  pub first-update :
      (q p : A → Bool) (f : A → A) (xs : List A) (x : A)
      → ((y : A) → q (update_row p f y) ≡ q y)
      → first q xs ≡ some x
      → first q (update p f xs) ≡ some (update_row p f x)
  first-update q p f [] x same h = cc
  first-update q p f (y ∷ ys) x same h = elim (Bool-cases (q y)) [
    | inl hit ↦
        let found : y ≡ x = ground (arith, hit, h) in
        rw (same y, hit) (ap (λ z. some (update_row p f z)) found)
    | inr miss ↦ rw (same y, miss) (first-update q p f ys x same (ground (arith, miss, h)))
  ]

  -- A row that is found stays found when rows are added, and a row that is added is found if no row
  -- before it matches.
  pub first-append :
      (q : A → Bool) (xs ys : List A) (x : A) → first q xs ≡ some x → first q (xs ++ ys) ≡ some x
  first-append q [] ys x h = cc
  first-append q (z ∷ zs) ys x h = elim (Bool-cases (q z)) [
    | inl hit ↦ rw hit (ground (arith, hit, h))
    | inr miss ↦ rw miss (first-append q zs ys x (ground (arith, miss, h)))
  ]

  pub first-last :
      (q : A → Bool) (xs : List A) (x : A)
      → any q xs ≡ false
      → q x ≡ true
      → first q (xs ++ x ∷ []) ≡ some x
  first-last q [] x none_found h = rw h refl
  first-last q (z ∷ zs) x none_found h = elim (Bool-cases (q z)) [
    | inl hit ↦ ground (arith, hit, none_found)
    | inr miss ↦ rw miss (first-last q zs x (ground (arith, miss, none_found)) h)
  ]

  pub first-new :
      (q : A → Bool) (xs : List A) (x : A)
      → first q xs ≡ none
      → q x ≡ true
      → first q (xs ++ x ∷ []) ≡ some x
  first-new q [] x none_found h = rw h refl
  first-new q (z ∷ zs) x none_found h = elim (Bool-cases (q z)) [
    | inl hit ↦ ground (arith, hit, none_found)
    | inr miss ↦ rw miss (first-new q zs x (ground (arith, miss, none_found)) h)
  ]
