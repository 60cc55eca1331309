-- ===== src/Registry/Invariant.antt =====
-- At most one deployment of a model name is active, and its model is approved: what every operation
-- of the registry keeps.
use sat_sa_with_pqc.Base.{
  ℕ, ◌+◌, ◌≤◌, String, eq_iff, eq_refl, ◌≡◌, inl, inr, refl, sym, subst, ap, Bool, true, false,
  Option, none, some, List, [], ◌∷◌, ◌++◌, Bool-cases, Option-cases, All, All-map, arith,
}
use sat_sa_with_pqc.Base.Int.{ℤ}
use sat_sa_with_pqc.Registry.Tables.{
  Deployment, is_active_for, find_active, deactivated, deactivate,
}
use sat_sa_with_pqc.Registry.Deploy.{replaced}

abbrev pub one_if : Bool → ℕ
one_if true = 1
one_if false = 0

-- How many deployments of the name are active.
abbrev pub count_active : String → String → List Deployment → ℕ
count_active org model_name [] = 0
count_active org model_name (d ∷ ds) =
    one_if (is_active_for org model_name d) + count_active org model_name ds

count_active-append :
    (org n : String) (xs ys : List Deployment)
    → count_active org n (xs ++ ys) ≡ count_active org n xs + count_active org n ys
count_active-append org n [] ys = omega arith
count_active-append org n (x ∷ xs) ys = omega (arith, count_active-append org n xs ys)

one_if-deactivated :
    (now : ℤ) (org i o n : String) (d : Deployment)
    → one_if (is_active_for o n (deactivated now org i d)) ≤ one_if (is_active_for o n d)
one_if-deactivated now org i o n d = ground arith

count_active-deactivate :
    (now : ℤ) (org i o n : String) (ds : List Deployment)
    → count_active o n (deactivate now org i ds) ≤ count_active o n ds
unfolding deactivate
count_active-deactivate now org i o n [] = omega arith
count_active-deactivate now org i o n (d ∷ ds) =
    omega (arith, count_active-deactivate now org i o n ds, one_if-deactivated now org i o n d)

-- No deployment of the name is active: none is found, and the other way round.
find_active-none :
    (org n : String) (ds : List Deployment)
    → find_active org n ds ≡ none
    → count_active org n ds ≡ 0
unfolding find_active
find_active-none org n [] h = refl
find_active-none org n (d ∷ ds) h = ground (arith, find_active-none org n ds)

is_active_for-deactivated :
    (now : ℤ) (org n : String) (x : Deployment)
    → is_active_for org n x ≡ true
    → is_active_for org n (deactivated now org x.id x) ≡ false
is_active_for-deactivated now org n x h = ground (arith, eq_refl x.id)

count_active-replaced_self :
    (now : ℤ) (org n : String) (ds : List Deployment) (d : Deployment)
    → find_active org n ds ≡ some d
    → count_active org n ds ≤ 1
    → count_active org n (deactivate now org d.id ds) ≡ 0
unfolding find_active deactivate
count_active-replaced_self now org n [] d found h = cc
count_active-replaced_self now org n (x ∷ xs) d found h =
    elim (Bool-cases (is_active_for org n x)) [
      | inl here ↦
          let same : d ≡ x = ground (arith, here, found) in
          let gone : one_if (is_active_for org n (deactivated now org x.id x)) ≡ 0 =
            ap one_if (is_active_for-deactivated now org n x here) in
          let only : count_active org n xs ≡ 0 = omega (arith, h, ap one_if here) in
          subst (λ (y : Deployment). count_active org n (deactivate now org y.id (x ∷ xs)) ≡ 0)
            (sym same) (omega (arith, gone, only, count_active-deactivate now org x.id org n xs))
      | inr other ↦
          let found_later : find_active org n xs ≡ some d = ground (arith, other, found) in
          omega (
            arith,
            one_if-deactivated now org d.id org n x,
            ap one_if other,
            h,
            count_active-replaced_self now org n xs d found_later
                (omega (arith, h, ap one_if other)),
          )
    ]

-- Of every name in the organization, at most one deployment is active.
abbrev pub OneActive : List Deployment → Type 0
OneActive ds = (org n : String) → count_active org n ds ≤ 1

-- After the `UPDATE` no deployment of the name is active.
count_active-replaced :
    (now : ℤ) (org n : String) (ds : List Deployment)
    → OneActive ds
    → count_active org n (replaced now org (find_active org n ds) ds) ≡ 0
count_active-replaced now org n ds h = elim (Option-cases (find_active org n ds)) [
  | inl nobody ↦ rw nobody (find_active-none org n ds nobody)
  | inr (d, found) ↦ rw found (count_active-replaced_self now org n ds d found (h org n))
]

count_active-replaced_le :
    (now : ℤ) (org o n : String) (current : Option Deployment) (ds : List Deployment)
    → count_active o n (replaced now org current ds) ≤ count_active o n ds
count_active-replaced_le now org o n none ds = omega arith
count_active-replaced_le now org o n (some d) ds = count_active-deactivate now org d.id o n ds

-- A row counts for its own name only.
is_active_for-other :
    (o m : String) (d : Deployment)
    → is_active_for o m d ≡ true
    → (d.organization_id ≡ o) × (d.model_name ≡ m)
is_active_for-other o m d h = ground (arith, eq_iff d.organization_id o, eq_iff d.model_name m)

pub OneActive-replaced :
    (now : ℤ) (ds : List Deployment) (new : Deployment)
    → OneActive ds
    → OneActive (
        replaced now new.organization_id (find_active new.organization_id new.model_name ds) ds
        ++ new ∷ [])
OneActive-replaced now ds new h o m =
    let org = new.organization_id in
    let rows = replaced now org (find_active org new.model_name ds) ds in
    let sum : count_active o m (rows ++ new ∷ [])
        ≡ count_active o m rows + one_if (is_active_for o m new) =
      omega (arith, count_active-append o m rows (new ∷ [])) in
    elim (Bool-cases (is_active_for o m new)) [
      | inl mine ↦
          let (e, f) = is_active_for-other o m new mine in
          let none_left : count_active o m rows ≡ 0 =
            subst (λ x. count_active x m rows ≡ 0) e
              (subst (λ x. count_active org x rows ≡ 0) f
                (count_active-replaced now org new.model_name ds h)) in
          omega (arith, sum, ap one_if mine, none_left)
      | inr other ↦ omega (
        arith,
        sum,
        ap one_if other,
        count_active-replaced_le now org o m (find_active org new.model_name ds) ds,
        h o m,
      )
    ]

-- The new row is the one that is found.
find_active-last :
    (org n : String) (ds : List Deployment) (new : Deployment)
    → count_active org n ds ≡ 0
    → is_active_for org n new ≡ true
    → find_active org n (ds ++ new ∷ []) ≡ some new
unfolding find_active
find_active-last org n [] new h active = rw active refl
find_active-last org n (d ∷ ds) new h active = elim (Bool-cases (is_active_for org n d)) [
  | inl here ↦ let no : ⊥ = omega (arith, h, ap one_if here) in elim no [ ]
  | inr other ↦ rw other (find_active-last org n ds new (omega (arith, h)) active)
]

pub find_active-replaced :
    (now : ℤ) (ds : List Deployment) (new : Deployment)
    → OneActive ds
    → new.active ≡ true
    → find_active new.organization_id new.model_name (
        replaced now new.organization_id (find_active new.organization_id new.model_name ds) ds
        ++ new ∷ [])
      ≡ some new
find_active-replaced now ds new h active =
    find_active-last new.organization_id new.model_name _ new
      (count_active-replaced now new.organization_id new.model_name ds h)
      (rw (eq_refl new.organization_id, eq_refl new.model_name) active)

find_active-zero :
    (org n : String) (ds : List Deployment) (d : Deployment)
    → find_active org n ds ≡ some d
    → 1 ≤ count_active org n ds
unfolding find_active
find_active-zero org n [] d h = cc
find_active-zero org n (x ∷ xs) d h = elim (Bool-cases (is_active_for org n x)) [
  | inl here ↦ omega (arith, ap one_if here)
  | inr other ↦ omega (arith, find_active-zero org n xs d (ground (arith, other, h)))
]

-- The deployment, if it is active, is the one that is found for its name.
abbrev pub IsFound : List Deployment → Deployment → Type 0
IsFound ds d =
    is_active_for d.organization_id d.model_name d ≡ true
    → find_active d.organization_id d.model_name ds ≡ some d

-- Before an active row of the same name another one is not found.
IsFound-later :
    (x : Deployment) (xs : List Deployment) (d : Deployment)
    → OneActive (x ∷ xs)
    → IsFound xs d
    → IsFound (x ∷ xs) d
unfolding find_active
IsFound-later x xs d h found active =
    elim (Bool-cases (is_active_for d.organization_id d.model_name x)) [
      | inl here ↦
          let no : ⊥ = omega (
            arith,
            ap one_if here,
            h d.organization_id d.model_name,
            find_active-zero d.organization_id d.model_name xs d (found active),
          ) in
          elim no [ ]
      | inr other ↦ rw other (found active)
    ]

OneActive-rest : (x : Deployment) (xs : List Deployment) → OneActive (x ∷ xs) → OneActive xs
OneActive-rest x xs h org n = omega (arith, h org n)

-- Where at most one deployment of a name is active, each active one is the one that is found.
pub All-IsFound : (ds : List Deployment) → OneActive ds → All (IsFound ds) ds
unfolding find_active
All-IsFound [] h = tt
All-IsFound (x ∷ xs) h = (
  λ active. rw active refl,
  All-map (IsFound xs) (IsFound (x ∷ xs)) xs (λ d found. IsFound-later x xs d h found)
      (All-IsFound xs (OneActive-rest x xs h)),
)
