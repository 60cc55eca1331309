-- ===== src/Policy/Values.antt =====
-- The operators of qsmlops/supervisor/policy.py on JSON values, as Python compares them: a Boolean is
-- a number, and texts and lists are ordered by their first difference. `str.upper` and `str.lower` are
-- modelled on ASCII letters.
use Prim.Native.Char.{Char, code}
use Prim.Native.String.{◌++◌}
use sat_sa_with_pqc.Base.{
  ℕ, String, ◌==◌, Bool, true, false, not, ◌||◌, Option, none, some, List, [], ◌∷◌, eqb,
  if◌then◌else◌,
}
use sat_sa_with_pqc.Base.Int.{ℤ, pos, leb_ℤ}
use sat_sa_with_pqc.Json.Equal.{as_number, equal}
use sat_sa_with_pqc.Json.{
  Json, Items, Dict, nil, cons, end, field, null, str, num, bool, arr, obj, truthy,
}
use sat_sa_with_pqc.Evidence.Sensitive.{codes, is_infix}

-- The letter at the place of `c` in another alphabet, or `c` itself.
abbrev pub counterpart : String → String → Char → Char
counterpart String.[] _ c = c
counterpart (String.◌∷◌ x xs) String.[] c = c
counterpart (String.◌∷◌ x xs) (String.◌∷◌ y ys) c =
    if eqb (code c) (code x) then y else counterpart xs ys c

abbrev pub small_letters : String
small_letters = "abcdefghijklmnopqrstuvwxyz"

abbrev pub capitals : String
capitals = "ABCDEFGHIJKLMNOPQRSTUVWXYZ"

unfoldable pub upper : String → String
upper String.[] = ""
upper (String.◌∷◌ c s) = String.◌∷◌ (counterpart small_letters capitals c) (upper s)

unfoldable pub lower_case : String → String
lower_case String.[] = ""
lower_case (String.◌∷◌ c s) = String.◌∷◌ (counterpart capitals small_letters c) (lower_case s)

abbrev pub joined : String → String → String
joined s t = s ++ t

pub data Order : Type 0 where
  lt : Order
  lte : Order
  gt : Order
  gte : Order

abbrev pub orders : Order → ℤ → ℤ → Bool
orders lt m n = not (leb_ℤ n m)
orders lte m n = leb_ℤ m n
orders gt m n = not (leb_ℤ m n)
orders gte m n = leb_ℤ n m

abbrev pub orders_codes : Order → List ℕ → List ℕ → Bool
orders_codes o [] [] = orders o (pos 0) (pos 0)
orders_codes o [] (y ∷ ys) = orders o (pos 0) (pos 1)
orders_codes o (x ∷ xs) [] = orders o (pos 1) (pos 0)
orders_codes o (x ∷ xs) (y ∷ ys) =
    if eqb x y then orders_codes o xs ys else orders o (pos x) (pos y)

abbrev pub orders_numbers : Order → Option ℤ → Option ℤ → Option Bool
orders_numbers o (some m) (some n) = some (orders o m n)
orders_numbers _ _ _ = none

-- `a < b` and the like; `none` is a TypeError.
unfoldable mutual
  pub compares : Order → Json → Json → Option Bool
  compares o (str s) (str t) = some (orders_codes o (codes s) (codes t))
  compares o (arr xs) (arr ys) = compares_items o xs ys
  compares o v w = orders_numbers o (as_number v) (as_number w)

  compares_items : Order → Items → Items → Option Bool
  compares_items o nil nil = some (orders o (pos 0) (pos 0))
  compares_items o nil (cons y ys) = some (orders o (pos 0) (pos 1))
  compares_items o (cons x xs) nil = some (orders o (pos 1) (pos 0))
  compares_items o (cons x xs) (cons y ys) =
      let here = compares o x y in
      let rest = compares_items o xs ys in if equal x y then rest else here

abbrev pub is_item : Json → Items → Bool
is_item v nil = false
is_item v (cons x xs) = equal v x || is_item v xs

abbrev pub is_key : String → Dict → Bool
is_key k end = false
is_key k (field j v d) = k == j || is_key k d

-- `a in b`; a list or a dictionary is no key.
unfoldable pub is_in : Json → Json → Option Bool
is_in v (arr xs) = some (is_item v xs)
is_in (str s) (str t) = some (is_infix (codes s) (codes t))
is_in (str k) (obj d) = some (is_key k d)
is_in (arr xs) (obj d) = none
is_in (obj e) (obj d) = none
is_in _ (obj d) = some false
is_in _ _ = none

pub data Operator : Type 0 where
  ordering : Order → Operator
  eq : Operator
  ne : Operator
  is_member : Operator
  not_in : Operator
  contains : Operator
  exists : Operator
  is_truthy : Operator

-- `OPERATORS`
abbrev pub operator : String → Option Operator
operator op =
    if op == "lt"
    then some (ordering lt)
    else if op == "lte"
    then some (ordering lte)
    else if op == "gt"
    then some (ordering gt)
    else if op == "gte"
    then some (ordering gte)
    else if op == "eq"
    then some eq
    else if op == "ne"
    then some ne
    else if op == "in"
    then some is_member
    else if op == "not_in"
    then some not_in
    else if op == "contains"
    then some contains
    else if op == "exists"
    then some exists
    else if op == "truthy"
    then some is_truthy
    else none

abbrev pub negated : Option Bool → Option Bool
negated none = none
negated (some b) = some (not b)

-- `b in a if hasattr(a, "__contains__") else False`
abbrev pub has_value : Json → Json → Option Bool
has_value null b = some false
has_value (num n) b = some false
has_value (bool x) b = some false
has_value a b = is_in b a

abbrev pub is_null : Json → Bool
is_null null = true
is_null _ = false

-- `fn(actual, value)`
unfoldable pub apply : Operator → Json → Json → Option Bool
apply (ordering o) a b = compares o a b
apply eq a b = some (equal a b)
apply ne a b = some (not (equal a b))
apply is_member a b = is_in a b
apply not_in a b = negated (is_in a b)
apply contains a b = has_value a b
apply exists a b = some (not (is_null a))
apply is_truthy a b = some (truthy a)
