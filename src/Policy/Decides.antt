-- ===== src/Policy/Decides.antt =====
-- What an engine decides: the decision of the first rule, by priority, that is enabled and matches.
use mathlib.Core.List.{Mem, mem-cons_self, mem-cons_of_mem}
use mathlib.Core.List.Perm
use mathlib.Core.Bool.{false≢true}
use sat_sa_with_pqc.Base.{
  ◌≡◌, ◌∙◌, refl, ap, sym, inl, inr, Bool, true, false, String, Option, none, some, List, [], ◌∷◌,
  ◌++◌, Result, ok, ◌>>=◌, not, ◌&&◌, ◌||◌, if◌then◌else◌, if_true, same_value, All, All-map,
  All-append, Bool-cases, arith,
}
use sat_sa_with_pqc.Base.Int.{◌≤ℤ◌}
use sat_sa_with_pqc.Json.{Json, Dict, get_or, null}
use sat_sa_with_pqc.Policy.Values.{Operator, operator, apply}
use sat_sa_with_pqc.Policy.Condition as Condition
use sat_sa_with_pqc.Policy.Condition.{PolicyFault, Condition, or_false}
use sat_sa_with_pqc.Policy.Rule as Rule
use sat_sa_with_pqc.Policy.Rule.{
  Rule, summary, summaries, add_summary, all_match, any_match, none_match, is_empty,
}
use sat_sa_with_pqc.Base.Sorting.{All-sort_by, sort_by-All, sort_by-Perm}
use sat_sa_with_pqc.Policy.Engine.{
  not_after, Decision, sorted, new_engine, decision_of, add_decision, evaluate_rules, evaluate,
  first_or_none, first_decision,
}
use sat_sa_with_pqc.Policy.Order.{IsOrdered, sorted-IsOrdered}

-- The operator of the condition is one of `OPERATORS`.
abbrev pub IsKnown : Condition → Type 0
IsKnown c = (fn : Operator) × (operator c.op ≡ some fn)

abbrev pub IsKnownRule : Rule → Type 0
IsKnownRule r = All IsKnown r.all_of × All IsKnown r.any_of × All IsKnown r.none_of

abbrev Succeeds {ℓ} : {A : Type ℓ} → Result PolicyFault A → Type ℓ
Succeeds {A = A} r = (a : A) × (r ≡ ok a)

pub matches_known :
    (facts : Dict) (c : Condition) → IsKnown c → Succeeds (Condition.matches facts c)
unfolding Condition.matches
matches_known facts c (fn, e) = (or_false (apply fn (get_or c.name null facts) c.value), rw e refl)

all_match_known :
    (facts : Dict) (cs : List Condition) → All IsKnown cs → Succeeds (all_match facts cs)
all_match_known facts [] h = (_, refl)
all_match_known facts (c ∷ cs) (h, hs) =
    let (m, e) = matches_known facts c h in
    let (rest, f) = all_match_known facts cs hs in (m && rest, rw (e, f) refl)

either :
    (m rest : Bool)
    → Path
        (Result PolicyFault Bool)
        (if m then ok true else ok rest)
        (ok (if m then true else rest))
either true rest = refl
either false rest = refl

any_match_known :
    (facts : Dict) (cs : List Condition) → All IsKnown cs → Succeeds (any_match facts cs)
any_match_known facts [] h = (_, refl)
any_match_known facts (c ∷ cs) (h, hs) =
    let (m, e) = matches_known facts c h in
    let (rest, f) = any_match_known facts cs hs in
    (if m then true else rest, rw (e, f) (either m rest))

none_match_known :
    (facts : Dict) (cs : List Condition) → All IsKnown cs → Succeeds (none_match facts cs)
none_match_known facts [] h = (_, refl)
none_match_known facts (c ∷ cs) (h, hs) =
    let (m, e) = matches_known facts c h in
    let (rest, f) = none_match_known facts cs hs in (not m && rest, rw (e, f) refl)

module _ (repr : Json → String) where
  summaries_known :
      (facts : Dict) (cs : List Condition) → All IsKnown cs → Succeeds (summaries repr facts cs)
  summaries_known facts [] h = (_, refl)
  summaries_known facts (c ∷ cs) (h, hs) =
      let (m, e) = matches_known facts c h in
      let (rest, f) = summaries_known facts cs hs in
      (add_summary repr m (summary repr c) rest, rw (e, f) refl)

  pub matches_known_rule :
      (facts : Dict) (r : Rule) → IsKnownRule r → Succeeds (Rule.matches repr facts r)
  unfolding Rule.matches
  matches_known_rule facts r (k, l, m) =
      let (lists, e) = summaries_known facts (r.all_of ++ r.any_of ++ r.none_of) (
        All-append IsKnown (r.all_of ++ r.any_of) r.none_of
          (All-append IsKnown r.all_of r.any_of k l) m) in
      let (each, f) = all_match_known facts r.all_of k in
      let (some_one, g) = any_match_known facts r.any_of l in
      let (no_one, h) = none_match_known facts r.none_of m in
      ((each && (is_empty r.any_of || some_one) && no_one, lists), rw (e, f, g, h) refl)

  -- The rule is enabled and matches; the texts are the conditions that hold and those that do not.
  abbrev pub Fires : Dict → Rule → List String × List String → Type 0
  Fires facts r lists = (r.enabled ≡ true) × (Rule.matches repr facts r ≡ ok (true, lists))

  abbrev pub Idle : Dict → Rule → Type 0
  Idle facts r = (lists : List String × List String) → ¬ Fires facts r lists

  abbrev pub Outranks : Dict → Rule → Rule → Type 0
  Outranks facts r s =
      (lists : List String × List String) → Fires facts s lists → s.priority ≤ℤ r.priority

  -- What a decision on the facts may be.
  abbrev pub IsChosen : Dict → List Rule → Option Decision → Type 0
  IsChosen facts rules none = All (Idle facts) rules
  IsChosen facts rules (some d) =
      (r : Rule) × (lists : List String × List String) × Mem r rules
      × Fires facts r lists
      × (d ≡ decision_of repr r lists)
      × All (Outranks facts r) rules

  IsChosen-later :
      (facts : Dict) (r : Rule) (rs : List Rule) (o : Option Decision)
      → All (λ s. s.priority ≤ℤ r.priority) rs
      → Idle facts r
      → IsChosen facts rs o
      → IsChosen facts (r ∷ rs) o
  IsChosen-later facts r rs none below idle k = (idle, k)
  IsChosen-later facts r rs (some d) below idle (s, lists, m, fires, e, k) =
      (s, lists, mem-cons_of_mem r m, fires, e, ((λ l f. elim (idle l f) [ ]), k))

  no_match :
      (facts : Dict) (r : Rule) (l m : List String × List String)
      → Rule.matches repr facts r ≡ ok (false, l)
      → ¬ (Rule.matches repr facts r ≡ ok (true, m))
  no_match facts r l m miss hit =
      let same : (false, l) ≡ (true, m) = same_value (Rule.matches repr facts r) miss hit in
      false≢true (ap (λ (p : Bool × (List String × List String)). p.0) same)

  pub evaluate_rules_on :
      (facts : Dict) (r : Rule) (rs : List Rule) (m : Bool × (List String × List String))
      (ds : List Decision)
      → r.enabled ≡ true
      → Rule.matches repr facts r ≡ ok m
      → evaluate_rules repr facts rs ≡ ok ds
      → evaluate_rules repr facts (r ∷ rs) ≡ ok (add_decision repr r m ds)
  evaluate_rules_on facts r rs m ds on hit e =
      sym (
        if_true
          (Rule.matches repr facts r >>= λ m.
            evaluate_rules repr facts rs >>= λ ds. ok (add_decision repr r m ds))
          (evaluate_rules repr facts rs) on)
      ∙ rw (hit, e) refl

  evaluate-IsChosen :
      (facts : Dict) (rs : List Rule)
      → IsOrdered rs
      → All IsKnownRule rs
      → (ds : List Decision) × (evaluate_rules repr facts rs ≡ ok ds)
        × IsChosen facts rs (first_or_none repr ds)
  evaluate-IsChosen facts [] o k = ([], refl, tt)
  evaluate-IsChosen facts (r ∷ rs) (below, o) (k, ks) =
      let (ds, e, chosen) = evaluate-IsChosen facts rs o ks in
      elim (Bool-cases r.enabled) [
        | inr off ↦ (
          ds,
          rw off e,
          IsChosen-later facts r rs (first_or_none repr ds) below
              (λ l f. false≢true (sym off ∙ f.0)) chosen,
        )
        | inl on ↦
            let ((matched, lists), hit) = matches_known_rule facts r k in
            elim (Bool-cases matched) [
              | inl yes_it ↦
                  let fires : Rule.matches repr facts r ≡ ok (true, lists) =
                    hit ∙ ap (λ b. ok (b, lists)) yes_it in
                  (
                    decision_of repr r lists ∷ ds,
                    evaluate_rules_on facts r rs (true, lists) ds on fires e,
                    (
                      r,
                      lists,
                      mem-cons_self,
                      (on, fires),
                      refl,
                      ((λ l f. omega arith), All-map _ (Outranks facts r) rs (λ s b l f. b) below),
                    ),
                  )
              | inr not_it ↦
                  let idle : Rule.matches repr facts r ≡ ok (false, lists) =
                    hit ∙ ap (λ b. ok (b, lists)) not_it in
                  (
                    ds,
                    evaluate_rules_on facts r rs (false, lists) ds on idle e,
                    IsChosen-later facts r rs (first_or_none repr ds) below
                        (λ l f. no_match facts r lists l idle f.1) chosen,
                  )
            ]
      ]

  IsChosen-sorted :
      (facts : Dict) (rules : List Rule) (o : Option Decision)
      → IsChosen facts (sorted rules) o
      → IsChosen facts rules o
  IsChosen-sorted facts rules none k = sort_by-All not_after (Idle facts) rules k
  IsChosen-sorted facts rules (some d) (r, lists, m, fires, e, k) = (
    r,
    lists,
    Perm.subset (sort_by-Perm not_after rules) r m,
    fires,
    e,
    sort_by-All not_after (Outranks facts r) rules k,
  )

  -- An engine whose conditions all have known operators decides on any facts. Its first decision is that of
  -- a rule among the given ones that is enabled and matches, and no other rule that is enabled and
  -- matches has a higher priority; there is no decision exactly if no rule that is enabled matches.
  pub first_decision_lem :
      (facts : Dict) (rules : List Rule)
      → All IsKnownRule rules
      → (o : Option Decision) × (first_decision repr facts (new_engine rules) ≡ ok o)
        × IsChosen facts rules o
  unfolding first_decision evaluate
  first_decision_lem facts rules k =
      let (ds, e, chosen) =
        evaluate-IsChosen facts (sorted rules) (sorted-IsOrdered rules)
          (All-sort_by not_after IsKnownRule rules k) in
      (first_or_none repr ds, rw e refl, IsChosen-sorted facts rules (first_or_none repr ds) chosen)
