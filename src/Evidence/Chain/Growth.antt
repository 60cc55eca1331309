-- ===== src/Evidence/Chain/Growth.antt =====
-- `append` extends a verified file by one entry, and the file stays verified.
use sat_sa_with_pqc.Base.{
  ℕ, suc, ◌+◌, String, ◌≡◌, refl, ap, sym, ◌∙◌, subst, true, some, List, [], ◌∷◌, ◌++◌, ok, arith,
  length, length-append, last?, inl,
}
use sat_sa_with_pqc.Base.Int.{ℤ, pos}
use sat_sa_with_pqc.Json.{Json, str, num, obj, null}
use sat_sa_with_pqc.Evidence.Codec.{Codec}
use sat_sa_with_pqc.Evidence.Chain.{
  Body, ChainFields, chain_fields, entry_json, genesis_prev, raw_lines, parse_lines, entries,
  head_of, subscript, head, hash_body, append, verify_chain, chain_intact,
}
use sat_sa_with_pqc.Evidence.Chain.Spec.{
  IsChain, Parses, last_hash, verify_chain-chain, verify_chain_iff,
}

module _ (c : Codec) where
  open c use {Text, dumps, loads, strip, is_empty, loads-dumps, strip-dumps, is_empty-dumps}

  -- A dumped value is one line of the file, which parses to the value.
  raw_lines-dumps :
      (lines : List Text) (v : Json)
      → raw_lines c (lines ++ dumps v ∷ []) ≡ raw_lines c lines ++ dumps v ∷ []
  unfolding raw_lines
  raw_lines-dumps [] v = rw (strip-dumps v, is_empty-dumps v)
  raw_lines-dumps (line ∷ lines) v = ground (arith, raw_lines-dumps lines v)

  parse_lines-dumps :
      (lines : List Text) (v : Json)
      → parse_lines c (lines ++ dumps v ∷ []) ≡ parse_lines c lines ++ v ∷ []
  unfolding parse_lines
  parse_lines-dumps [] v = rw (loads-dumps v)
  parse_lines-dumps (line ∷ lines) v = ground (arith, parse_lines-dumps lines v)

  pub entries-dumps :
      (lines : List Text) (v : Json) → entries c (lines ++ dumps v ∷ []) ≡ entries c lines ++ v ∷ []
  unfolding entries
  entries-dumps lines v =
      ap (parse_lines c) (raw_lines-dumps lines v) ∙ parse_lines-dumps (raw_lines c lines) v

  Parses-dumps : (lines : List Text) (v : Json) → Parses c lines → Parses c (lines ++ dumps v ∷ [])
  Parses-dumps [] v h = ((v, loads-dumps v), tt)
  Parses-dumps (line ∷ lines) v h = (h.0, Parses-dumps lines v h.1)

  chain_fields-entry_json :
      (b : Body) (h : String)
      → chain_fields (entry_json b h) ≡ some (record { body = b; entry_hash = str h })
  unfolding chain_fields entry_json
  chain_fields-entry_json b h = refl

  -- A chain may be extended by an entry that names its last hash and its length.
  IsChain-append :
      (i : ℕ) (prev : String) (es : List Json) (chain : IsChain c i prev es) (b : Body)
      → b.prev_hash ≡ str (last_hash c i prev es chain)
      → b.seq ≡ num (pos (i + length es))
      → IsChain c i prev (es ++ entry_json b (hash_body c b) ∷ [])
  IsChain-append i prev [] chain b p s = (
    record { body = b; entry_hash = str (hash_body c b) },
    record {
      has_fields = chain_fields-entry_json b (hash_body c b);
      prev_hash = p;
      entry_hash = refl;
      seq = inl (s ∙ ap (λ n. num (pos n)) (omega arith));
    },
    tt,
  )
  IsChain-append i prev (e ∷ es) (f, linked, rest) b p s = (
    f,
    linked,
    IsChain-append (suc i) (hash_body c f.body) es rest b p
        (s ∙ ap (λ n. num (pos n)) (omega arith)),
  )

  subscript-chain_fields :
      (e : Json) (f : ChainFields)
      → chain_fields e ≡ some f
      → subscript "entry_hash" e ≡ ok f.entry_hash
  unfolding chain_fields
  subscript-chain_fields (obj d) f h = ground arith
  subscript-chain_fields null f h = cc
  subscript-chain_fields _ f h = cc

  -- What `head` reads off a chain is its last hash.
  head_of-chain :
      (i : ℕ) (prev : String) (e : Json) (es : List Json) (chain : IsChain c i prev (e ∷ es))
      → head_of c (last? (e ∷ es)) ≡ ok (str (last_hash c i prev (e ∷ es) chain))
  head_of-chain i prev e [] (f, linked, rest) =
      subscript-chain_fields e f linked.has_fields ∙ ap ok linked.entry_hash
  head_of-chain i prev e (d ∷ es) (f, linked, rest) =
      head_of-chain (suc i) (hash_body c f.body) d es rest

  pub head-chain :
      (lines : List Text) (chain : IsChain c 0 genesis_prev (entries c lines))
      → head c lines ≡ ok (str (last_hash c 0 genesis_prev (entries c lines) chain))
  unfolding head
  head-chain lines chain = go (entries c lines) chain
    where
      go :
          (es : List Json) (ch : IsChain c 0 genesis_prev es)
          → head_of c (last? es) ≡ ok (str (last_hash c 0 genesis_prev es ch))
      go [] ch = refl
      go (e ∷ es) ch = head_of-chain 0 genesis_prev e es ch

  verify_chain-extended :
      (lines : List Text) (b : Body)
      → Parses c (raw_lines c lines)
      → (chain : IsChain c 0 genesis_prev (entries c lines))
      → b.prev_hash ≡ str (last_hash c 0 genesis_prev (entries c lines) chain)
      → b.seq ≡ num (pos (length (entries c lines)))
      → verify_chain c (lines ++ dumps (entry_json b (hash_body c b)) ∷ [])
        ≡ (true, chain_intact (length (entries c lines) + 1))
  verify_chain-extended lines b parses chain p s =
      let entry : Json = entry_json b (hash_body c b) in
      verify_chain-chain c (lines ++ dumps entry ∷ [])
        (subst (Parses c) (sym (raw_lines-dumps lines entry))
          (Parses-dumps (raw_lines c lines) entry parses))
        (subst (IsChain c 0 genesis_prev) (sym (entries-dumps lines entry)) (
          IsChain-append 0 genesis_prev (entries c lines) chain b p
            (s ∙ ap (λ n. num (pos n)) (omega arith))))
      ∙ ap (λ n. (true, chain_intact n))
          (ap length (entries-dumps lines entry) ∙ length-append (entries c lines) (entry ∷ []))

  -- On a verified file `append` succeeds: it adds one line, the entry with the given record, the
  -- given time and the next sequence number, and the new file is verified with one entry more.
  pub append-verify_chain :
      (lines : List Text) (now : ℤ) (recorded : Json)
      → (verify_chain c lines).0 ≡ true
      → (b : Body) × (append c now recorded lines
          ≡ ok (entry_json b (hash_body c b), lines ++ dumps (entry_json b (hash_body c b)) ∷ []))
        × (b.recorded ≡ recorded)
        × (b.timestamp ≡ num now)
        × (b.seq ≡ num (pos (length (entries c lines))))
        × (verify_chain c (lines ++ dumps (entry_json b (hash_body c b)) ∷ [])
            ≡ (true, chain_intact (length (entries c lines) + 1)))
  unfolding append
  append-verify_chain lines now recorded h =
      let (parses, chain) = (verify_chain_iff c lines).0 h in
      let b : Body = record {
        prev_hash = str (last_hash c 0 genesis_prev (entries c lines) chain);
        recorded = recorded;
        seq = num (pos (length (entries c lines)));
        timestamp = num now;
      } in
      let entry : Json = entry_json b (hash_body c b) in
      (
        b,
        rw (head-chain lines chain),
        refl,
        refl,
        refl,
        verify_chain-extended lines b parses chain refl refl,
      )
