-- ===== src/Policy/RoundTrip.antt =====
-- A policy that was read from a document is written as a document that is read as the same policy.
use Prim.Native.Char.{Char, code}
use sat_sa_with_pqc.Base.{
  ◌⊎◌, ◌≡◌, ◌∙◌, refl, ap, ap₂, sym, subst, inl, inr, true, false, not, ◌&&◌, ◌==◌, if_true, String,
  Option, none, some, List, [], ◌∷◌, Result, ok, err, ◌>>=◌, >>=-eq-ok, eqb, same_value, raise_if,
  All, Bool-cases, arith,
}
use sat_sa_with_pqc.Base.Int.{pos}
use sat_sa_with_pqc.Json.{
  Json, Items, Dict, end, field, get, get_or, obj, arr, nil, cons, as_dict, num, null, item, str_at,
  str_or,
}
use sat_sa_with_pqc.Policy.Values.{
  joined, is_key, counterpart, small_letters, capitals, upper, lower_case,
}
use sat_sa_with_pqc.Policy.Condition as Condition
use sat_sa_with_pqc.Policy.Condition.{
  PolicyFault, missing_action, no_conditions, reading, Condition,
}
use sat_sa_with_pqc.Policy.Rule as Rule
use sat_sa_with_pqc.Policy.Rule.{
  Rule, when_of, conditions_at, read_conditions, is_empty, check_conditions, as_int, iterated,
}
use sat_sa_with_pqc.Base.Sorting.{All-sort_by}
use sat_sa_with_pqc.Policy.Engine.{
  not_after, Engine, Thresholds, read_rules, read_thresholds, defaults_of, from_document, to_dict,
  conditions_json, with_conditions, rule_dict, rules_json, thresholds_dict,
}
use sat_sa_with_pqc.Policy.Order.{IsOrdered, sorted-IsOrdered, sorted-ordered}

-- The letters that `ys` can give are fixed by the alphabet `zs` to `ws`.
abbrev Stable : String → Type 0
Stable String.[] = Unit
Stable (String.◌∷◌ y ys) = (counterpart small_letters capitals y ≡ y) × Stable ys

capitals-Stable : Stable capitals
capitals-Stable = ground arith

counterpart-fixed :
    (xs ys : String) (c : Char)
    → Stable ys
    → (counterpart xs ys c ≡ c)
      ⊎ (counterpart small_letters capitals (counterpart xs ys c) ≡ counterpart xs ys c)
counterpart-fixed String.[] _ c h = inl refl
counterpart-fixed (String.◌∷◌ x xs) String.[] c h = inl refl
counterpart-fixed (String.◌∷◌ x xs) (String.◌∷◌ y ys) c (h, hs) =
    elim (Bool-cases (eqb (code c) (code x))) [
      | inl hit ↦ inr (rw hit h)
      | inr miss ↦ rw miss (counterpart-fixed xs ys c hs)
    ]

upper_letter_twice :
    (c : Char)
    → counterpart small_letters capitals (counterpart small_letters capitals c)
      ≡ counterpart small_letters capitals c
upper_letter_twice c = elim (counterpart-fixed small_letters capitals c capitals-Stable) [
  | inl same ↦ ap (counterpart small_letters capitals) same
  | inr fixed ↦ fixed
]

upper-upper : (s : String) → upper (upper s) ≡ upper s
unfolding upper
upper-upper String.[] = refl
upper-upper (String.◌∷◌ c s) = ap₂ (λ x xs. String.◌∷◌ x xs) (upper_letter_twice c) (upper-upper s)

read_conditions-conditions_json :
    (cs : List Condition) → read_conditions (conditions_json cs) ≡ ok cs
unfolding Condition.from_dict
read_conditions-conditions_json [] = refl
read_conditions-conditions_json (c ∷ cs) = rw (read_conditions-conditions_json cs) refl

abbrev read_from : String → Option Json → Result PolicyFault (List Condition)
read_from k o = reading (iterated k (elim o [ none ↦ arr nil | some v ↦ v ])) >>= read_conditions

get-here : (k : String) (v : Json) (d : Dict) → (k == k) ≡ true → get k (field k v d) ≡ some v
get-here k v d same = rw same refl

-- The conditions of one kind, before those of the other kinds.
conditions_at-here :
    (k : String) (cs : List Condition) (d : Dict)
    → (k == k) ≡ true
    → get k d ≡ none
    → conditions_at k (with_conditions k cs d) ≡ ok cs
conditions_at-here k [] d same absent = ap (read_from k) absent
conditions_at-here k (c ∷ cs) d same absent =
    ap (read_from k) (get-here k (arr (conditions_json (c ∷ cs))) d same)
    ∙ read_conditions-conditions_json (c ∷ cs)

get-with_conditions :
    (j k : String) (cs : List Condition) (d : Dict)
    → (j == k) ≡ false
    → get k (with_conditions j cs d) ≡ get k d
get-with_conditions j k [] d other = refl
get-with_conditions j k (c ∷ cs) d other = rw other refl

conditions_at-there :
    (j k : String) (cs : List Condition) (d : Dict)
    → (j == k) ≡ false
    → conditions_at k (with_conditions j cs d) ≡ conditions_at k d
conditions_at-there j k cs d other = ap (read_from k) (get-with_conditions j k cs d other)

when_of-obj : (d : Dict) → when_of (obj d) ≡ ok d
when_of-obj end = refl
when_of-obj (field k v d) = refl

-- What `Rule.from_dict` guarantees.
pub record RuleOk (r : Rule) : Type 0 where
  pub capital : upper r.action ≡ r.action
  pub conditions : is_empty r.all_of && is_empty r.any_of && is_empty r.none_of ≡ false

checked :
    (a b n : List Condition) (d : Dict)
    → check_conditions a b n d ≡ ok tt
    → is_empty a && is_empty b && is_empty n ≡ false
checked a b n d h = elim (Bool-cases (is_empty a && is_empty b && is_empty n)) [
  | inl none_given ↦
      let refused : Result PolicyFault (Unit {0}) =
        reading (item "name" d) >>= λ name. err (no_conditions name) in
      let e : refused ≡ ok tt = if_true refused (ok tt) none_given ∙ h in
      let (name, _, odd) =
        >>=-eq-ok (reading (item "name" d)) (λ name. err (no_conditions name)) e in
      cc odd
  | inr given ↦ given
]

from_dict-RuleOk : (d : Dict) (r : Rule) → Rule.from_dict d ≡ ok r → RuleOk r
unfolding Rule.from_dict
from_dict-RuleOk d r h =
    let (_, _, h1) = >>=-eq-ok (raise_if (not (is_key "action" d)) missing_action) _ h in
    let (when, _, h2) = >>=-eq-ok (when_of (get_or "when" null d)) _ h1 in
    let (all_of, _, h3) = >>=-eq-ok (conditions_at "all" when) _ h2 in
    let (any_of, _, h4) = >>=-eq-ok (conditions_at "any" when) _ h3 in
    let (none_of, _, h5) = >>=-eq-ok (conditions_at "none" when) _ h4 in
    let (_, k, h6) = >>=-eq-ok (check_conditions all_of any_of none_of d) _ h5 in
    let (action, _, h7) = >>=-eq-ok (reading (str_at "action" d)) _ h6 in
    let (name, _, h8) =
      >>=-eq-ok (reading (str_or "name" (joined "rule-" (lower_case action)) d)) _ h7 in
    let (priority, _, h9) =
      >>=-eq-ok (reading (as_int "priority" (get_or "priority" (num (pos 50)) d))) _ h8 in
    let (description, _, h10) = >>=-eq-ok (reading (str_or "description" "" d)) _ h9 in
    let same = same_value _ refl h10 in
    subst RuleOk same
      (record { capital = upper-upper action; conditions = checked all_of any_of none_of d k })

from_dict-rule_dict : (r : Rule) → RuleOk r → Rule.from_dict (rule_dict r) ≡ ok r
unfolding Rule.from_dict
from_dict-rule_dict r k =
    let a = r.all_of in
    let b = r.any_of in
    let n = r.none_of in
    let rest = with_conditions "none" n end in
    let d = with_conditions "any" b rest in
    let when = with_conditions "all" a d in
    let all_read : conditions_at "all" when ≡ ok a =
      conditions_at-here "all" a d refl (
        get-with_conditions "any" "all" b rest refl
        ∙ get-with_conditions "none" "all" n end refl) in
    let any_read : conditions_at "any" when ≡ ok b =
      conditions_at-there "all" "any" a d refl
      ∙ conditions_at-here "any" b rest refl (get-with_conditions "none" "any" n end refl) in
    let none_read : conditions_at "none" when ≡ ok n =
      conditions_at-there "all" "none" a d refl
      ∙ conditions_at-there "any" "none" b rest refl
      ∙ conditions_at-here "none" n end refl refl in
    rw (when_of-obj when, all_read, any_read, none_read, k.conditions, k.capital) refl

read_rules-RuleOk : (xs : Items) (rs : List Rule) → read_rules xs ≡ ok rs → All RuleOk rs
read_rules-RuleOk nil rs h = subst (All RuleOk) (same_value _ refl h) tt
read_rules-RuleOk (cons x xs) rs h =
    let (d, _, h1) = >>=-eq-ok (reading (as_dict "rules" x)) _ h in
    let (r, e, h2) = >>=-eq-ok (Rule.from_dict d) _ h1 in
    let (rest, f, h3) = >>=-eq-ok (read_rules xs) _ h2 in
    subst (All RuleOk) (same_value _ refl h3) (from_dict-RuleOk d r e, read_rules-RuleOk xs rest f)

read_rules-rules_json : (rs : List Rule) → All RuleOk rs → read_rules (rules_json rs) ≡ ok rs
read_rules-rules_json [] h = refl
read_rules-rules_json (r ∷ rs) (h, hs) =
    rw (from_dict-rule_dict r h, read_rules-rules_json rs hs) refl

-- What `from_document` guarantees.
record EngineOk (e : Engine) : Type 0 where
  rules : All RuleOk e.rules
  ordered : IsOrdered e.rules
  given : (t : Thresholds) × (e.thresholds ≡ some t)

from_document-EngineOk : (doc : Dict) (e : Engine) → from_document doc ≡ ok e → EngineOk e
unfolding from_document
from_document-EngineOk doc e h =
    let (raw, _, h1) = >>=-eq-ok (reading (iterated "rules" (get_or "rules" (arr nil) doc))) _ h in
    let (rules, k, h2) = >>=-eq-ok (read_rules raw) _ h1 in
    let (defaults, _, h3) = >>=-eq-ok (defaults_of (get_or "thresholds" null doc)) _ h2 in
    let (t, _, h4) = >>=-eq-ok (read_thresholds defaults) _ h3 in
    subst EngineOk (same_value _ refl h4) (record {
      rules = All-sort_by not_after RuleOk rules (read_rules-RuleOk raw rules k);
      ordered = sorted-IsOrdered rules;
      given = (t, refl);
    })

from_document-to_dict : (e : Engine) → EngineOk e → from_document (to_dict e) ≡ ok e
unfolding from_document to_dict
from_document-to_dict e k =
    let (t, given) = k.given in
    rw (read_rules-rules_json e.rules k.rules, sorted-ordered e.rules k.ordered)
      (ap
          (λ o. defaults_of (obj (thresholds_dict o)) >>= λ d.
            read_thresholds d >>= λ ts. ok (record { rules = e.rules; thresholds = some ts }))
          given
        ∙ ap (λ o. ok (record { rules = e.rules; thresholds = o })) (sym given))

-- An engine that a document gave, written as a document and read again, is the same engine: its rules in
-- their order, with every condition, and its thresholds.
pub policy_round_trip :
    (doc : Dict) (e : Engine) → from_document doc ≡ ok e → from_document (to_dict e) ≡ ok e
policy_round_trip doc e h = from_document-to_dict e (from_document-EngineOk doc e h)
