-- ===== src/Json/Equal.antt =====
-- `==` on the values of the `json` module: a Boolean is a number, and the order of a `dict` does not count.
use sat_sa_with_pqc.Base.{ℕ, suc, ◌==◌, Bool, true, false, ◌&&◌, Option, none, some, eqb}
use sat_sa_with_pqc.Base.Int.{ℤ, pos, leb_ℤ}
use sat_sa_with_pqc.Json.{
  Json, Items, Dict, nil, cons, end, field, null, str, num, bool, arr, obj, get,
}

-- The number that a value is in a comparison.
abbrev pub as_number : Json → Option ℤ
as_number (num n) = some n
as_number (bool true) = some (pos 1)
as_number (bool false) = some (pos 0)
as_number _ = none

abbrev pub eqb_ℤ : ℤ → ℤ → Bool
eqb_ℤ m n = leb_ℤ m n && leb_ℤ n m

abbrev pub same_number : Option ℤ → Option ℤ → Bool
same_number (some m) (some n) = eqb_ℤ m n
same_number _ _ = false

-- `len(d)`
abbrev pub size : Dict → ℕ
size end = 0
size (field k v d) = suc (size d)

-- `a == b`
unfoldable mutual
  pub equal : Json → Json → Bool
  equal null null = true
  equal (str s) (str t) = s == t
  equal (arr xs) (arr ys) = equal_items xs ys
  equal (obj d) (obj e) = eqb (size d) (size e) && fields_found d e
  equal v w = same_number (as_number v) (as_number w)

  equal_items : Items → Items → Bool
  equal_items nil nil = true
  equal_items (cons x xs) (cons y ys) = equal x y && equal_items xs ys
  equal_items _ _ = false

  -- Every key of the first one has an equal value in the second one.
  fields_found : Dict → Dict → Bool
  fields_found end e = true
  fields_found (field k v d) e =
      elim (get k e) [ none ↦ false | some w ↦ equal v w ] && fields_found d e
