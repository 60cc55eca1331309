-- ===== src/Base/Results.antt =====
-- A computation that may raise: an exception of type `E`, or a value.
use mathlib.Core.Path.{◌≡◌, refl}
use mathlib.Core.Logic.{◌⊎◌, inl, inr}
use mathlib.Core.Bool.{Bool, true, false}
use mathlib.Core.Option.{Option, none, some}

pub data Result {ℓ κ} (E : Type ℓ) (A : Type κ) : Type (ℓ ⊔ κ) where
  err : E → Result E A
  ok : A → Result E A

-- `if b: raise e`
abbrev pub raise_if {ℓ} : {E : Type ℓ} → Bool → E → Result E (Unit {0})
raise_if false exn = ok tt
raise_if true exn = err exn

module _ {ℓ κ} {E : Type ℓ} {A : Type κ} where
  abbrev pub or_raise : Option A → E → Result E A
  or_raise (some value) exn = ok value
  or_raise none exn = err exn

  -- A result is one value only.
  pub same_value : {x y : A} (r : Result E A) → r ≡ ok x → r ≡ ok y → x ≡ y
  same_value r h k = cc (h, k)

  -- To split on a computed result and keep the equation.
  pub Result-cases : (r : Result E A) → ((e : E) × (r ≡ err e)) ⊎ ((a : A) × (r ≡ ok a))
  Result-cases (err exn) = inl (exn, refl)
  Result-cases (ok value) = inr (value, refl)

  -- The next statement runs on the value; an exception skips it.
  infixl 5 ◌>>=◌
  abbrev pub ◌>>=◌ {μ} : {B : Type μ} → Result E A → (A → Result E B) → Result E B
  err exn >>= next = err exn
  ok value >>= next = next value

  -- What a sequence of two statements that did not raise went through.
  pub >>=-eq-ok {μ} :
      {B : Type μ} (first : Result E A) (next : A → Result E B) {last : B}
      → (first >>= next) ≡ ok last
      → (a : A) × (first ≡ ok a) × (next a ≡ ok last)
  >>=-eq-ok (err exn) next h = cc
  >>=-eq-ok (ok value) next h = (value, refl, h)

module _ {ℓ κ} {E : Type ℓ} {B : Type κ} where
  infixl 5 ◌>>◌
  abbrev pub ◌>>◌ : Result E (Unit {0}) → Result E B → Result E B
  first >> second = first >>= λ _. second
