-- ===== src/Registry/Shape.antt =====
-- What the strict loader of a model promises: the bytes have the digest, and the parameters fit.
use sat_sa_with_pqc.Base.{
  ℕ, suc, String, ◌==◌, eq_iff, ◌≡◌, refl, sym, ◌∙◌, subst, ap, false, not, Option, none, some,
  List, [], ◌∷◌, ok, >>=-eq-ok, same_value, raise_if, or_raise, length, eqb, All, arith,
}
use sat_sa_with_pqc.Base.Int.{ℤ, pos, ◌≤ℤ◌}
use sat_sa_with_pqc.Json.{Json, Items, Dict, null, bool, num, str, arr, obj, nil, cons, get}
use sat_sa_with_pqc.Evidence.Codec.{Codec}
use sat_sa_with_pqc.Registry.Artifact.{
  Artifact, items_length, number, numbers, finite_list, feature_list, intercept_of, read_fields,
  read_document, load, any_non_positive, non_positive_scale, no_bytes, other_digest, not_json,
  not_a_list, is_text, artifact_format, unsupported_format, other_feature_version,
}

-- Each list of parameters has one number per feature, and each scale is positive.
pub record Fits (a : Artifact) : Type 0 where
  pub mean : length a.mean ≡ length a.features
  pub scale : length a.scale ≡ length a.features
  pub coef : length a.coef ≡ length a.features
  pub train_min : length a.train_min ≡ length a.features
  pub train_max : length a.train_max ≡ length a.features
  pub positive : All (λ s. ¬ (s ≤ℤ pos 0)) a.scale

length-numbers :
    (k : String) (vs : Items) (ns : List ℤ) → numbers k vs ≡ ok ns → length ns ≡ items_length vs
unfolding numbers
length-numbers k nil ns h = let same : [] ≡ ns = same_value _ refl h in ap length (sym same)
length-numbers k (cons v vs) ns h =
    let (n, _, h1) = >>=-eq-ok (number k v) _ h in
    let (rest, found, h2) = >>=-eq-ok (numbers k vs) _ h1 in
    let same : n ∷ rest ≡ ns = same_value _ refl h2 in
    ap length (sym same) ∙ ap suc (length-numbers k vs rest found)

length-finite_list :
    (v : Option Json) (n : ℕ) (k : String) (ns : List ℤ) → finite_list v n k ≡ ok ns → length ns ≡ n
unfolding finite_list
length-finite_list (some (arr vs)) n k ns h =
    let (_, same_length, h1) =
      >>=-eq-ok (raise_if (not (eqb (items_length vs) n)) (not_a_list k n)) _ h in
    length-numbers k vs ns h1 ∙ ground (arith, same_length)
length-finite_list (some null) n k ns h = cc h
length-finite_list (some (bool b)) n k ns h = cc h
length-finite_list (some (num m)) n k ns h = cc h
length-finite_list (some (str t)) n k ns h = cc h
length-finite_list (some (obj d)) n k ns h = cc h
length-finite_list none n k ns h = cc h

All-positive : (ss : List ℤ) → any_non_positive ss ≡ false → All (λ s. ¬ (s ≤ℤ pos 0)) ss
All-positive [] h = tt
All-positive (s ∷ ss) h = (λ low. ground (arith, h, low), All-positive ss (ground (arith, h)))

Fits-read_fields : (doc : Dict) (a : Artifact) → read_fields doc ≡ ok a → Fits a
unfolding read_fields
Fits-read_fields doc a h =
    let (names, _, h1) = >>=-eq-ok (feature_list (get "features" doc)) _ h in
    let n = length names in
    let (mean, e1, h2) = >>=-eq-ok (finite_list (get "mean" doc) n "mean") _ h1 in
    let (scale, e2, h3) = >>=-eq-ok (finite_list (get "scale" doc) n "scale") _ h2 in
    let (coef, e3, h4) = >>=-eq-ok (finite_list (get "coef" doc) n "coef") _ h3 in
    let (intercept, _, h5) = >>=-eq-ok (intercept_of (get "intercept" doc)) _ h4 in
    let (low, e4, h6) = >>=-eq-ok (finite_list (get "train_min" doc) n "train_min") _ h5 in
    let (high, e5, h7) = >>=-eq-ok (finite_list (get "train_max" doc) n "train_max") _ h6 in
    let (_, positive, h8) = >>=-eq-ok (raise_if (any_non_positive scale) non_positive_scale) _ h7 in
    subst Fits (same_value _ refl h8) (record {
      mean = length-finite_list (get "mean" doc) n "mean" mean e1;
      scale = length-finite_list (get "scale" doc) n "scale" scale e2;
      coef = length-finite_list (get "coef" doc) n "coef" coef e3;
      train_min = length-finite_list (get "train_min" doc) n "train_min" low e4;
      train_max = length-finite_list (get "train_max" doc) n "train_max" high e5;
      positive = All-positive scale (ground (arith, positive));
    })

Fits-read_document :
    (doc : Json) (version : String) (a : Artifact) → read_document doc version ≡ ok a → Fits a
unfolding read_document
Fits-read_document (obj d) version a h =
    let (_, _, h1) =
      >>=-eq-ok (raise_if (not (is_text (get "format" d) artifact_format)) unsupported_format) _
        h in
    let (_, _, h2) =
      >>=-eq-ok (raise_if (not (is_text (get "feature_version" d) version)) other_feature_version) _
        h1 in
    Fits-read_fields d a h2
Fits-read_document null version a h = cc h
Fits-read_document (bool b) version a h = cc h
Fits-read_document (num m) version a h = cc h
Fits-read_document (str t) version a h = cc h
Fits-read_document (arr vs) version a h = cc h

-- Whatever the loader returns was read from bytes of the expected digest, and it fits: each list of
-- parameters has one number per feature, and every scale is positive.
pub load-Fits :
    (c : Codec) (bytes : c.Text) (digest version : String) (a : Artifact)
    → load c bytes digest version ≡ ok a
    → (c.sha3_hex bytes ≡ digest) × Fits a
unfolding load
load-Fits c bytes digest version a h =
    let (_, _, h1) = >>=-eq-ok (raise_if (c.is_empty bytes) no_bytes) _ h in
    let (_, same, h2) = >>=-eq-ok (raise_if (not (c.sha3_hex bytes == digest)) other_digest) _ h1 in
    let (doc, _, h3) = >>=-eq-ok (or_raise (c.loads bytes) not_json) _ h2 in
    (ground (arith, same, eq_iff (c.sha3_hex bytes) digest), Fits-read_document doc version a h3)
