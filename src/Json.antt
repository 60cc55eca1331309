-- ===== src/Json.antt =====
-- The values of Python's `json` module, and the reads on a `dict` that the program makes.
-- A `dict` is written with its fields in the order of their keys, as `sort_keys` writes it (`==` on
-- a `dict` ignores the order). Numbers are whole: a float is taken in units of the model.
pub mod Equal
use sat_sa_with_pqc.Base.{
  String, ◌==◌, ◌≡◌, refl, Bool, true, false, Option, none, some, not, if◌then◌else◌, Result, ok,
  err, ◌>>=◌, or_raise, eqb, eq_iff, ◌≢◌, arith, Bool-cases, inl, inr, sym, ◌∙◌, Bool-cases, inl,
  inr,
}
use native.Mathlib.Decide.{ℕ_discrete}
use mathlib.Core.Bool.{false≢true}
use sat_sa_with_pqc.Base.Int.{ℤ, pos, negsuc}

mutual
  pub data Json : Type 0 where
    null : Json
    bool : Bool → Json
    num : ℤ → Json
    str : String → Json
    arr : Items → Json
    obj : Dict → Json

  pub data Items : Type 0 where
    nil : Items
    cons : Json → Items → Items

  pub data Dict : Type 0 where
    end : Dict
    field : String → Json → Dict → Dict

-- What a read of a field may raise; `ill_typed` marks a value that the field's annotation does not
-- allow, which Python would store unchecked.
pub data ReadError : Type 0 where
  key_error : String → ReadError
  ill_typed : String → ReadError

-- `d.get(k)`
abbrev pub get : String → Dict → Option Json
get k end = none
get k (field j v d) = if j == k then some v else get k d

-- `d[k]`
abbrev pub item : String → Dict → Result ReadError Json
item k d = or_raise (get k d) (key_error k)

-- `bool(x)`
abbrev pub truthy : Json → Bool
truthy null = false
truthy (bool b) = b
truthy (num (pos n)) = not (eqb n 0)
truthy (num (negsuc n)) = true
truthy (str s) = not (s == "")
truthy (arr nil) = false
truthy (arr (cons x xs)) = true
truthy (obj end) = false
truthy (obj (field k v d)) = true

-- A value at the type that a record's field declares.
module _ (k : String) where
  abbrev pub as_str : Json → Result ReadError String
  as_str (str s) = ok s
  as_str _ = err (ill_typed k)

  abbrev pub as_num : Json → Result ReadError ℤ
  as_num (num n) = ok n
  as_num _ = err (ill_typed k)

  abbrev pub as_list : Json → Result ReadError Items
  as_list (arr xs) = ok xs
  as_list _ = err (ill_typed k)

  abbrev pub as_dict : Json → Result ReadError Dict
  as_dict (obj d) = ok d
  as_dict _ = err (ill_typed k)

  abbrev pub as_bool : Json → Result ReadError Bool
  as_bool (bool b) = ok b
  as_bool _ = err (ill_typed k)

  abbrev pub as_opt_str : Json → Result ReadError (Option String)
  as_opt_str null = ok none
  as_opt_str (str s) = ok (some s)
  as_opt_str _ = err (ill_typed k)

  abbrev pub as_opt_num : Json → Result ReadError (Option ℤ)
  as_opt_num null = ok none
  as_opt_num (num n) = ok (some n)
  as_opt_num _ = err (ill_typed k)

abbrev pub get_or : String → Json → Dict → Json
get_or k default d = elim (get k d) [ none ↦ default | some v ↦ v ]

-- `d[k]` and `d.get(k, default)` at a type.
module _ (k : String) where
  abbrev pub str_at : Dict → Result ReadError String
  str_at d = item k d >>= as_str k

  abbrev pub num_at : Dict → Result ReadError ℤ
  num_at d = item k d >>= as_num k

  abbrev pub str_or : String → Dict → Result ReadError String
  str_or default d = as_str k (get_or k (str default) d)

  abbrev pub num_or : ℤ → Dict → Result ReadError ℤ
  num_or default d = as_num k (get_or k (num default) d)

  abbrev pub bool_or : Bool → Dict → Result ReadError Bool
  bool_or default d = as_bool k (get_or k (bool default) d)

  abbrev pub list_or : Items → Dict → Result ReadError Items
  list_or default d = as_list k (get_or k (arr default) d)

  abbrev pub dict_or : Dict → Dict → Result ReadError Dict
  dict_or default d = as_dict k (get_or k (obj default) d)

  -- `d.get(k)` at an optional field.
  abbrev pub opt_str_at : Dict → Result ReadError (Option String)
  opt_str_at d = as_opt_str k (get_or k null d)

  abbrev pub opt_num_at : Dict → Result ReadError (Option ℤ)
  opt_num_at d = as_opt_num k (get_or k null d)

  -- `d.get(k) or fresh`
  abbrev pub str_or_fresh : String → Dict → Result ReadError String
  str_or_fresh fresh d = let v = get_or k null d in if truthy v then as_str k v else ok fresh

abbrev pub opt_str : Option String → Json
opt_str none = null
opt_str (some s) = str s

abbrev pub opt_num : Option ℤ → Json
opt_num none = null
opt_num (some n) = num n

pub as_opt_str-opt_str : (k : String) (o : Option String) → as_opt_str k (opt_str o) ≡ ok o
as_opt_str-opt_str k none = refl
as_opt_str-opt_str k (some s) = refl

pub as_opt_num-opt_num : (k : String) (o : Option ℤ) → as_opt_num k (opt_num o) ≡ ok o
as_opt_num-opt_num k none = refl
as_opt_num-opt_num k (some n) = refl

-- A text that is not empty is truthy.
pub nonempty : (s : String) → s ≢ "" → (s == "") ≡ false
nonempty s h = ground (arith, eq_iff s "")

-- Equality of texts, and so of JSON values, is decided.
pub String-discrete : Discrete String
String-discrete a b = elim (Bool-cases (a == b)) [
  | inl same ↦ yes ((eq_iff a b).0 same)
  | inr other ↦ no (λ e. false≢true (sym other ∙ (eq_iff a b).1 e))
]

pub Json-discrete : Discrete Json
Json-discrete = hlevel (ℕ_discrete, String-discrete)
