-- ===== src/Base/Sorting.antt =====
-- `sorted(xs, key=...)`, which keeps the order of items with equal keys. `le x y` holds if the key of `x`
-- is not after that of `y`.
use mathlib.Core.Path.{subst, sym}
use mathlib.Core.Logic.{inl, inr}
use mathlib.Core.Bool.{Bool}
use mathlib.Core.List.{List, [], ◌∷◌, Perm}
use mathlib.Core.List.Perm
use sat_sa_with_pqc.Base.Tests.{if◌then◌else◌, if_true, if_false, Bool-cases}
use sat_sa_with_pqc.Base.Lists.{All}

module _ {A : Type 0} where
  abbrev pub insert_by : (A → A → Bool) → A → List A → List A
  insert_by le x [] = x ∷ []
  insert_by le x (y ∷ ys) = let rest = insert_by le x ys in if le x y then x ∷ y ∷ ys else y ∷ rest

  abbrev pub sort_by : (A → A → Bool) → List A → List A
  sort_by le [] = []
  sort_by le (x ∷ xs) = insert_by le x (sort_by le xs)

module _ {A : Type 0} (le : A → A → Bool) where
  pub All-insert_by :
      (P : A → Type 0) (x : A) (xs : List A) → P x → All P xs → All P (insert_by le x xs)
  All-insert_by P x [] h hs = (h, tt)
  All-insert_by P x (y ∷ ys) h hs = elim (Bool-cases (le x y)) [
    | inl first ↦ rw first (h, hs)
    | inr later ↦ rw later (hs.0, All-insert_by P x ys h hs.1)
  ]

  insert_by-All :
      (P : A → Type 0) (x : A) (xs : List A) → All P (insert_by le x xs) → P x × All P xs
  insert_by-All P x [] h = h
  insert_by-All P x (y ∷ ys) h = elim (Bool-cases (le x y)) [
    | inl first ↦ subst (All P) (sym (if_true (x ∷ y ∷ ys) (y ∷ insert_by le x ys) first)) h
    | inr later ↦
        let k = subst (All P) (sym (if_false (x ∷ y ∷ ys) (y ∷ insert_by le x ys) later)) h in
        let rest = insert_by-All P x ys k.1 in (rest.0, (k.0, rest.1))
  ]

  pub All-sort_by : (P : A → Type 0) (xs : List A) → All P xs → All P (sort_by le xs)
  All-sort_by P [] h = tt
  All-sort_by P (x ∷ xs) (h, hs) = All-insert_by P x (sort_by le xs) h (All-sort_by P xs hs)

  pub sort_by-All : (P : A → Type 0) (xs : List A) → All P (sort_by le xs) → All P xs
  sort_by-All P [] h = tt
  sort_by-All P (x ∷ xs) h =
      let k = insert_by-All P x (sort_by le xs) h in (k.0, sort_by-All P xs k.1)

  insert_by-Perm : (x : A) (xs : List A) → Perm (insert_by le x xs) (x ∷ xs)
  insert_by-Perm x [] = Perm.rfl
  insert_by-Perm x (y ∷ ys) = elim (Bool-cases (le x y)) [
    | inl first ↦ rw first Perm.rfl
    | inr later ↦ rw later (Perm.trans (Perm.cons y (insert_by-Perm x ys)) (Perm.swap x y ys))
  ]

  pub sort_by-Perm : (xs : List A) → Perm (sort_by le xs) xs
  sort_by-Perm [] = Perm.rfl
  sort_by-Perm (x ∷ xs) =
      Perm.trans (insert_by-Perm x (sort_by le xs)) (Perm.cons x (sort_by-Perm xs))
