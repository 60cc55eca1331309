-- ===== src/Policy/Order.antt =====
-- The order of the rules: sorting puts a higher priority first, and changes nothing that is in order.
use sat_sa_with_pqc.Base.{
  ◌≡◌, ◌∙◌, refl, ap, inl, inr, true, List, [], ◌∷◌, All, All-map, Bool-cases, arith,
}
use sat_sa_with_pqc.Base.Int.{◌≤ℤ◌, leb_ℤ}
use sat_sa_with_pqc.Policy.Rule.{Rule}
use sat_sa_with_pqc.Base.Sorting.{insert_by, All-insert_by}
use sat_sa_with_pqc.Policy.Engine.{not_after, sorted}

abbrev pub IsOrdered : List Rule → Type 0
IsOrdered [] = Unit
IsOrdered (r ∷ rs) = All (λ s. s.priority ≤ℤ r.priority) rs × IsOrdered rs

insert-IsOrdered : (r : Rule) (rs : List Rule) → IsOrdered rs → IsOrdered (insert_by not_after r rs)
insert-IsOrdered r [] h = (tt, tt)
insert-IsOrdered r (s ∷ ss) (h, hs) = elim (Bool-cases (leb_ℤ s.priority r.priority)) [
  | inl first ↦
      let below : s.priority ≤ℤ r.priority = ground (arith, first) in
      rw first (
        (below, All-map _ (λ t. t.priority ≤ℤ r.priority) ss (λ t k. omega (arith, below, k)) h),
        (h, hs),
      )
  | inr later ↦
      let above : r.priority ≤ℤ s.priority = ground (arith, later) in
      rw later (
        All-insert_by not_after (λ t. t.priority ≤ℤ s.priority) r ss above h,
        insert-IsOrdered r ss hs,
      )
]

pub sorted-IsOrdered : (rs : List Rule) → IsOrdered (sorted rs)
sorted-IsOrdered [] = tt
sorted-IsOrdered (r ∷ rs) = insert-IsOrdered r (sorted rs) (sorted-IsOrdered rs)

-- Sorting what is in order changes nothing.
insert-first :
    (r : Rule) (rs : List Rule)
    → All (λ s. s.priority ≤ℤ r.priority) rs
    → insert_by not_after r rs ≡ r ∷ rs
insert-first r [] h = refl
insert-first r (s ∷ ss) h =
    let first : leb_ℤ s.priority r.priority ≡ true = ground (arith, h.0) in rw first refl

pub sorted-ordered : (rs : List Rule) → IsOrdered rs → sorted rs ≡ rs
sorted-ordered [] h = refl
sorted-ordered (r ∷ rs) (h, hs) =
    ap (insert_by not_after r) (sorted-ordered rs hs) ∙ insert-first r rs h
