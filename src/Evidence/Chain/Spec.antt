-- ===== src/Evidence/Chain/Spec.antt =====
-- A verified file, as a predicate: every line parses, and the entries link from the genesis hash.
use sat_sa_with_pqc.Base.{
  ℕ, suc, String, eq_iff, ◌≡◌, ◌↔◌, ◌⊎◌, ap, sym, subst, ◌∙◌, refl, true, false, none, some, List,
  [], ◌∷◌, ok, arith, Option-cases, inl, inr, >>=-eq-ok, Result-cases, length, All,
}
use sat_sa_with_pqc.Base.Int.{pos}
use sat_sa_with_pqc.Json.{Json, str, num, bool}
use sat_sa_with_pqc.Evidence.Codec.{Codec}
use sat_sa_with_pqc.Evidence.Chain.{
  ChainFields, chain_fields, eq_text, eq_count, genesis_prev, raw_lines, entries, hash_body,
  first_malformed, check_fields, check_entry, check_entries, verify_chain, chain_intact,
}

-- A JSON value that Python holds equal to the number.
abbrev pub IsCount : Json → ℕ → Type 0
IsCount v i = (v ≡ num (pos i)) ⊎ ((v ≡ bool true) × (i ≡ 1)) ⊎ ((v ≡ bool false) × (i ≡ 0))

eq_text_iff : (v : Json) (s : String) → (eq_text v s ≡ true) ↔ (v ≡ str s)
eq_text_iff (str t) s = (λ h. ground (arith, eq_iff t s), λ h. ground (arith, eq_iff t s))
eq_text_iff v s = (λ h. cc, λ h. cc)

eq_count_iff : (v : Json) (i : ℕ) → (eq_count v i ≡ true) ↔ IsCount v i
eq_count_iff v i = (λ h. ground arith, λ h. ground arith)

module _ (c : Codec) where
  open c use {Text, loads}

  -- Entry `i` after the hash `prev`, with these fields.
  pub record IsLinked (i : ℕ) (prev : String) (e : Json) (f : ChainFields) : Type 0 where
    pub has_fields : chain_fields e ≡ some f
    pub prev_hash : f.body.prev_hash ≡ str prev
    pub entry_hash : f.entry_hash ≡ str (hash_body c f.body)
    pub seq : IsCount f.body.seq i

  abbrev pub IsChain : ℕ → String → List Json → Type 0
  IsChain i prev [] = Unit
  IsChain i prev (e ∷ es) =
      (f : ChainFields) × IsLinked i prev e f × IsChain (suc i) (hash_body c f.body) es

  abbrev pub Parses : List Text → Type 0
  Parses = All (λ (line : Text). (v : Json) × (loads line ≡ some v))

  check_fields_true :
      (i : ℕ) (prev next : String) (f : ChainFields)
      → check_fields c i prev (some f) ≡ ok next
      → (f.body.prev_hash ≡ str prev)
        × (f.entry_hash ≡ str (hash_body c f.body))
        × IsCount f.body.seq i
        × (next ≡ hash_body c f.body)
  unfolding check_fields
  check_fields_true i prev next f h = ground (
    arith,
    (eq_text_iff f.body.prev_hash prev).0,
    (eq_text_iff f.entry_hash (hash_body c f.body)).0,
    (eq_count_iff f.body.seq i).0,
  )

  check_fields_linked :
      (i : ℕ) (prev : String) (f : ChainFields)
      → f.body.prev_hash ≡ str prev
      → f.entry_hash ≡ str (hash_body c f.body)
      → IsCount f.body.seq i
      → check_fields c i prev (some f) ≡ ok (hash_body c f.body)
  unfolding check_fields
  check_fields_linked i prev f p h s = rw (
    (eq_text_iff f.body.prev_hash prev).1 p,
    (eq_text_iff f.entry_hash (hash_body c f.body)).1 h,
    (eq_count_iff f.body.seq i).1 s,
  )

  check_entry_sound :
      (i : ℕ) (prev next : String) (e : Json)
      → check_entry c i prev e ≡ ok next
      → (f : ChainFields) × IsLinked i prev e f × (next ≡ hash_body c f.body)
  check_entry_sound i prev next e h = elim (Option-cases (chain_fields e)) [
    | inl lacking ↦ unfold check_fields in cc (h, ap (check_fields c i prev) lacking)
    | inr (f, found) ↦
        let tests = check_fields_true i prev next f (ap (check_fields c i prev) (sym found) ∙ h) in
        (
          f,
          record { has_fields = found; prev_hash = tests.0; entry_hash = tests.1; seq = tests.2 },
          tests.3,
        )
  ]

  check_entry_complete :
      (i : ℕ) (prev : String) (e : Json) (f : ChainFields)
      → IsLinked i prev e f
      → check_entry c i prev e ≡ ok (hash_body c f.body)
  check_entry_complete i prev e f l =
      ap (check_fields c i prev) l.has_fields
      ∙ check_fields_linked i prev f l.prev_hash l.entry_hash l.seq

  pub check_entries_sound :
      (i : ℕ) (prev : String) (es : List Json) {last : String}
      → check_entries c i prev es ≡ ok last
      → IsChain i prev es
  unfolding check_entries
  check_entries_sound i prev [] h = tt
  check_entries_sound i prev (e ∷ es) h =
      let (next, first, rest) = >>=-eq-ok (check_entry c i prev e) _ h in
      let (f, linked, same) = check_entry_sound i prev next e first in
      (f, linked, subst (λ n. IsChain (suc i) n es) same (check_entries_sound (suc i) next es rest))

  -- The hash that the next entry must name.
  abbrev pub last_hash : (i : ℕ) (prev : String) (es : List Json) → IsChain i prev es → String
  last_hash i prev [] chain = prev
  last_hash i prev (e ∷ es) chain = last_hash (suc i) (hash_body c chain.0.body) es chain.2

  pub check_entries_complete :
      (i : ℕ) (prev : String) (es : List Json) (chain : IsChain i prev es)
      → check_entries c i prev es ≡ ok (last_hash i prev es chain)
  unfolding check_entries
  check_entries_complete i prev [] chain = refl
  check_entries_complete i prev (e ∷ es) (f, linked, rest) =
      rw (check_entry_complete i prev e f linked)
        (check_entries_complete (suc i) (hash_body c f.body) es rest)

  first_malformed_sound :
      (i : ℕ) (lines : List Text) → first_malformed c i lines ≡ none → Parses lines
  unfolding first_malformed
  first_malformed_sound i [] h = tt
  first_malformed_sound i (line ∷ lines) h = elim (Option-cases (loads line)) [
    | inl bad ↦ ground arith
    | inr (v, good) ↦ ((v, good), first_malformed_sound (suc i) lines (ground arith))
  ]

  pub first_malformed_complete :
      (i : ℕ) (lines : List Text) → Parses lines → first_malformed c i lines ≡ none
  unfolding first_malformed
  first_malformed_complete i [] h = refl
  first_malformed_complete i (line ∷ lines) ((v, good), h) =
      rw (good, first_malformed) (first_malformed_complete (suc i) lines h)

  verified-Parses :
      (lines : List Text)
      → (verify_chain c lines).0 ≡ true
      → Parses (raw_lines c lines) × IsChain 0 genesis_prev (entries c lines)
  unfolding verify_chain
  verified-Parses lines h =
      let malformed = first_malformed c 0 (raw_lines c lines) in
      let checked = check_entries c 0 genesis_prev (entries c lines) in
      elim (Option-cases malformed) [
        | inr (i, bad) ↦ cc
        | inl good ↦ elim (Result-cases checked) [
          | inl (v, fails) ↦ cc
          | inr (last, holds) ↦ (
            first_malformed_sound 0 (raw_lines c lines) good,
            check_entries_sound 0 genesis_prev (entries c lines) holds,
          )
        ]
      ]

  -- The verdict on a file that parses and is a chain.
  pub verify_chain-chain :
      (lines : List Text)
      → Parses (raw_lines c lines)
      → IsChain 0 genesis_prev (entries c lines)
      → verify_chain c lines ≡ (true, chain_intact (length (entries c lines)))
  unfolding verify_chain
  verify_chain-chain lines parses chain = rw (
    first_malformed_complete 0 (raw_lines c lines) parses,
    check_entries_complete 0 genesis_prev (entries c lines) chain,
  )

  -- `verify_chain` answers true exactly when every line of the file parses and the entries form a
  -- chain from the genesis hash: entry number i has all five fields, names the hash before it,
  -- carries the hash of its own four fields, and has the sequence number i.
  pub verify_chain_iff :
      (lines : List Text)
      → ((verify_chain c lines).0 ≡ true)
        ↔ (Parses (raw_lines c lines) × IsChain 0 genesis_prev (entries c lines))
  verify_chain_iff lines =
      (verified-Parses lines, λ h. ap (λ r. r.0) (verify_chain-chain lines h.0 h.1))
