-- ===== src/Base/Lists.antt =====
-- Lists measured and searched with the native numbers and Boolean tests.
use Prim.Native.Nat.{ℕ, suc, ◌+◌}
use Prim.Native.String.{String}
use text.Mathlib.Text.{◌==◌}
use text.Mathlib.TextEquality.{eq_iff}
use mathlib.Core.Path.{◌≡◌, subst, sym}
use mathlib.Core.Logic.{◌⊎◌, inl, inr, ◌↔◌}
use mathlib.Core.Bool.{Bool, true, false, ◌||◌}
use mathlib.Core.Option.{Option, none, some}
use mathlib.Core.List.{List, [], ◌∷◌, ◌++◌}
use native.Mathlib.Omega.{arith}

module _ {ℓ} {A : Type ℓ} where
  abbrev pub length : List A → ℕ
  length [] = 0
  length (x ∷ xs) = suc (length xs)

  abbrev pub last? : List A → Option A
  last? [] = none
  last? (x ∷ []) = some x
  last? (x ∷ y ∷ xs) = last? (y ∷ xs)

  pub length-append : (xs ys : List A) → length (xs ++ ys) ≡ length xs + length ys
  length-append [] ys = omega arith
  length-append (x ∷ xs) ys = omega (arith, length-append xs ys)

-- `x in xs`, for texts.
abbrev pub contains : String → List String → Bool
contains x [] = false
contains x (y ∷ ys) = x == y || contains x ys

-- A property of every item of a list.
abbrev pub All {ℓ κ} : {A : Type ℓ} → (A → Type κ) → List A → Type κ
All P [] = Unit
All P (x ∷ xs) = P x × All P xs

-- The text is one of the listed ones.
abbrev pub OneOf : String → List String → Type 0
OneOf s [] = ⊥
OneOf s (x ∷ xs) = (s ≡ x) ⊎ OneOf s xs

pub contains_iff : (s : String) (xs : List String) → (contains s xs ≡ true) ↔ OneOf s xs
contains_iff s [] = (λ h. cc, λ h. elim h [ ])
contains_iff s (x ∷ xs) =
    let ih = contains_iff s xs in
    (λ h. ground (arith, eq_iff s x, ih.0), λ h. ground (arith, eq_iff s x, ih.1))

pub OneOf-append :
    (s : String) (xs ys : List String) → OneOf s (xs ++ ys) ↔ (OneOf s xs ⊎ OneOf s ys)
OneOf-append s [] ys = (λ h. inr h, λ h. ground arith)
OneOf-append s (x ∷ xs) ys =
    let ih = OneOf-append s xs ys in (λ h. ground (arith, ih.0), λ h. ground (arith, ih.1))

-- What holds of every listed text holds of one that is listed.
pub All-OneOf {ℓ} :
    (P : String → Type ℓ) (xs : List String) (s : String) → All P xs → OneOf s xs → P s
All-OneOf P [] s h i = elim i [ ]
All-OneOf P (x ∷ xs) s h i = elim i [ inl e ↦ subst P (sym e) h.0 | inr j ↦ All-OneOf P xs s h.1 j ]

pub All-map {ℓ κ μ} :
    {A : Type ℓ} (P : A → Type κ) (Q : A → Type μ) (xs : List A)
    → ((x : A) → P x → Q x)
    → All P xs
    → All Q xs
All-map P Q [] f h = tt
All-map P Q (x ∷ xs) f (h, hs) = (f x h, All-map P Q xs f hs)

pub All-both {ℓ κ μ} :
    {A : Type ℓ} (P : A → Type κ) (Q : A → Type μ) (xs : List A)
    → All P xs
    → All Q xs
    → All (λ x. P x × Q x) xs
All-both P Q [] h k = tt
All-both P Q (x ∷ xs) (h, hs) (k, ks) = ((h, k), All-both P Q xs hs ks)

pub All-append {ℓ κ} :
    {A : Type ℓ} (P : A → Type κ) (xs ys : List A) → All P xs → All P ys → All P (xs ++ ys)
All-append P [] ys h k = k
All-append P (x ∷ xs) ys (h, hs) k = (h, All-append P xs ys hs k)

pub All-always {ℓ κ} : {A : Type ℓ} (P : A → Type κ) (xs : List A) → ((x : A) → P x) → All P xs
All-always P [] h = tt
All-always P (x ∷ xs) h = (h x, All-always P xs h)
