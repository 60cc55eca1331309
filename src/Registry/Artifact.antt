-- ===== src/Registry/Artifact.antt =====
-- satsa/mlops/artifact.py: the strict check of a stored model. A number is whole, in units of the
-- model, so each one is finite.
use sat_sa_with_pqc.Base.{
  ℕ, suc, String, ◌==◌, Bool, false, not, ◌||◌, Option, none, some, List, [], ◌∷◌, Result, ok, err,
  ◌>>=◌, ◌>>◌, raise_if, or_raise, length, eqb,
}
use sat_sa_with_pqc.Base.Int.{ℤ, pos, leb_ℤ}
use sat_sa_with_pqc.Json.{Json, Items, Dict, num, str, arr, obj, nil, cons, get}
use sat_sa_with_pqc.Evidence.Codec.{Codec}

abbrev pub artifact_format : String
artifact_format = "satsa-logistic-regression/1"

pub data ArtifactError : Type 0 where
  is_missing : ArtifactError
  no_bytes : ArtifactError
  other_digest : ArtifactError
  not_json : ArtifactError
  unsupported_format : ArtifactError
  other_feature_version : ArtifactError
  no_feature_list : ArtifactError
  not_a_list : String → ℕ → ArtifactError
  not_numeric : String → ArtifactError
  non_positive_scale : ArtifactError
  passport_altered : ArtifactError
  passport_disagrees : ArtifactError

pub record Artifact : Type 0 where
  pub features : List String
  pub mean : List ℤ
  pub scale : List ℤ
  pub coef : List ℤ
  pub intercept : ℤ
  pub train_min : List ℤ
  pub train_max : List ℤ

abbrev pub items_length : Items → ℕ
items_length nil = 0
items_length (cons v vs) = suc (items_length vs)

abbrev pub number : String → Json → Result ArtifactError ℤ
number field_name (num n) = ok n
number field_name _ = err (not_numeric field_name)

unfoldable pub numbers : String → Items → Result ArtifactError (List ℤ)
numbers field_name nil = ok []
numbers field_name (cons v vs) = do n ← number field_name v; ns ← numbers field_name vs; ok (n ∷ ns)

-- `_finite_list`; `none` is the None of an absent field.
unfoldable pub finite_list : Option Json → ℕ → String → Result ArtifactError (List ℤ)
finite_list (some (arr vs)) n field_name =
    raise_if (not (eqb (items_length vs) n)) (not_a_list field_name n) >> numbers field_name vs
finite_list _ n field_name = err (not_a_list field_name n)

unfoldable pub text_list : Items → Option (List String)
text_list nil = some []
text_list (cons (str s) vs) = elim (text_list vs) [ some ss ↦ some (s ∷ ss) | none ↦ none ]
text_list (cons _ vs) = none

abbrev pub is_text : Option Json → String → Bool
is_text (some (str s)) t = s == t
is_text _ t = false

-- A list of texts with at least one of them.
unfoldable pub feature_list : Option Json → Result ArtifactError (List String)
feature_list (some (arr (cons v vs))) = or_raise (text_list (cons v vs)) no_feature_list
feature_list _ = err no_feature_list

abbrev pub any_non_positive : List ℤ → Bool
any_non_positive [] = false
any_non_positive (s ∷ ss) = leb_ℤ s (pos 0) || any_non_positive ss

-- The intercept is read as a list of one.
unfoldable pub intercept_of : Option Json → Result ArtifactError ℤ
intercept_of (some v) = number "intercept" v
intercept_of none = err (not_numeric "intercept")

as_document : Option Json → Result ArtifactError Json
as_document v = or_raise v not_json

unfoldable pub read_fields : Dict → Result ArtifactError Artifact
read_fields doc = do
  names ← feature_list (get "features" doc)
  mean ← finite_list (get "mean" doc) (length names) "mean"
  scale ← finite_list (get "scale" doc) (length names) "scale"
  coef ← finite_list (get "coef" doc) (length names) "coef"
  intercept ← intercept_of (get "intercept" doc)
  train_min ← finite_list (get "train_min" doc) (length names) "train_min"
  train_max ← finite_list (get "train_max" doc) (length names) "train_max"
  raise_if (any_non_positive scale) non_positive_scale
  ok (record {
    features = names;
    mean = mean;
    scale = scale;
    coef = coef;
    intercept = intercept;
    train_min = train_min;
    train_max = train_max;
  })

unfoldable pub read_document : Json → String → Result ArtifactError Artifact
read_document (obj doc) feature_version = do
  raise_if (not (is_text (get "format" doc) artifact_format)) unsupported_format
  raise_if (not (is_text (get "feature_version" doc) feature_version)) other_feature_version
  read_fields doc
read_document _ feature_version = err unsupported_format

module _ (c : Codec) where
  open c use {Text, loads, sha3_hex}

  unfoldable pub load : Text → String → String → Result ArtifactError Artifact
  unfolding as_document
  load bytes expected_digest feature_version = do
    raise_if (c.is_empty bytes) no_bytes
    raise_if (not (sha3_hex bytes == expected_digest)) other_digest
    doc ← as_document (loads bytes)
    read_document doc feature_version
