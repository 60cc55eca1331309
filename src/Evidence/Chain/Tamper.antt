-- ===== src/Evidence/Chain/Tamper.antt =====
-- What the hash chain detects, where the hash tells the entries apart, and what it does not.
use mathlib.Core.Option
use mathlib.Core.Option.{some-injective}
use sat_sa_with_pqc.Base.{
  ℕ, suc, String, ◌≡◌, refl, ap, ap₂, sym, ◌∙◌, subst, true, Option, some, List, [], ◌∷◌, ◌++◌,
  arith, length,
}
use sat_sa_with_pqc.Json.{Json}
use sat_sa_with_pqc.Evidence.Codec.{Codec}
use sat_sa_with_pqc.Evidence.Chain.{
  Body, ChainFields, genesis_prev, raw_lines, parse_lines, entries, hash_body, head, verify_chain,
  chain_fields, chain_intact,
}
use sat_sa_with_pqc.Evidence.Chain.Spec.{
  IsChain, IsLinked, Parses, last_hash, verify_chain-chain, verify_chain_iff,
}
use sat_sa_with_pqc.Evidence.Chain.Growth.{head-chain}

-- What the chain commits to in each entry.
abbrev pub bodies : List Json → List (Option Body)
bodies [] = []
bodies (e ∷ es) = Option.map (λ (f : ChainFields). f.body) (chain_fields e) ∷ bodies es

module _ (c : Codec) where
  open c use {Text}

  ToldApart : Option Body → Option Body → Type 0
  ToldApart (some x) (some y) = hash_body c x ≡ hash_body c y → x ≡ y
  ToldApart _ _ = Unit

  -- At every position that both lists have, the hash tells the two bodies apart if they differ.
  unfoldable pub NoCollision : List (Option Body) → List (Option Body) → Type 0
  unfolding ToldApart
  NoCollision (x ∷ xs) (y ∷ ys) = ToldApart x y × NoCollision xs ys
  NoCollision _ _ = Unit

  linked_agree :
      (i j : ℕ) (p q : String) (e f : Json) (x y : ChainFields)
      → IsLinked c i p e x
      → IsLinked c j q f y
      → x.body ≡ y.body
      → (es fs : List Json) → bodies es ≡ bodies fs
      → (p ≡ q) × (bodies (e ∷ es) ≡ bodies (f ∷ fs))
  linked_agree i j p q e f x y lx ly same es fs rest = (
    cc (ap (λ (b : Body). b.prev_hash) same),
    ap₂ {C = List (Option Body)} (λ b bs. b ∷ bs)
        (ap (Option.map (λ (g : ChainFields). g.body)) lx.has_fields
          ∙ ap some same
          ∙ sym (ap (Option.map (λ (g : ChainFields). g.body)) ly.has_fields))
        rest,
  )

  told_apart :
      (e f : Json) (x y : ChainFields)
      → chain_fields e ≡ some x
      → chain_fields f ≡ some y
      → ToldApart
          (Option.map (λ (g : ChainFields). g.body) (chain_fields e))
          (Option.map (λ (g : ChainFields). g.body) (chain_fields f))
      → hash_body c x.body ≡ hash_body c y.body
      → x.body ≡ y.body
  unfolding ToldApart
  told_apart e f x y ex fy told h =
      subst (λ o. ToldApart o (some y.body)) (ap (Option.map (λ (g : ChainFields). g.body)) ex)
        (subst (ToldApart (Option.map (λ (g : ChainFields). g.body) (chain_fields e)))
          (ap (Option.map (λ (g : ChainFields). g.body)) fy) told)
        h

  chains_agree :
      (i j : ℕ) (p q : String) (es fs : List Json) (a : IsChain c i p es) (b : IsChain c j q fs)
      → NoCollision (bodies es) (bodies fs)
      → length es ≡ length fs
      → last_hash c i p es a ≡ last_hash c j q fs b
      → (p ≡ q) × (bodies es ≡ bodies fs)
  unfolding NoCollision
  chains_agree i j p q [] [] a b apart n h = (h, refl)
  chains_agree i j p q [] (f ∷ fs) a b apart n h = absurd (omega arith)
  chains_agree i j p q (e ∷ es) [] a b apart n h = absurd (omega arith)
  chains_agree i j p q (e ∷ es) (f ∷ fs) (x, lx, rx) (y, ly, ry) (told, apart) n h =
      let (hashes, rest) =
        chains_agree (suc i) (suc j) (hash_body c x.body) (hash_body c y.body) es fs rx ry apart
          (omega arith) h in
      linked_agree i j p q e f x y lx ly
        (told_apart e f x y lx.has_fields ly.has_fields told hashes) es fs rest

  -- Suppose two verified files have the same number of entries and the same head, and wherever
  -- their entries at one position have the same hash, these have the same hashed fields (the hash
  -- has no collision between the two files). Then the entries agree position by position in all the
  -- hashed fields: previous hash, record, sequence number and timestamp.
  pub same_head_same_history :
      (lines others : List Text)
      → (verify_chain c lines).0 ≡ true
      → (verify_chain c others).0 ≡ true
      → NoCollision (bodies (entries c lines)) (bodies (entries c others))
      → length (entries c lines) ≡ length (entries c others)
      → head c lines ≡ head c others
      → bodies (entries c lines) ≡ bodies (entries c others)
  same_head_same_history lines others hl ho apart n h =
      let chain = ((verify_chain_iff c lines).0 hl).1 in
      let other = ((verify_chain_iff c others).0 ho).1 in
      let same = sym (head-chain c lines chain) ∙ h ∙ head-chain c others other in
      (chains_agree 0 0 genesis_prev genesis_prev (entries c lines) (entries c others) chain other
        apart n (cc same)).1

  raw_lines-append : (l m : List Text) → raw_lines c (l ++ m) ≡ raw_lines c l ++ raw_lines c m
  unfolding raw_lines
  raw_lines-append [] m = refl
  raw_lines-append (x ∷ l) m = ground (arith, raw_lines-append l m)

  parse_lines-append :
      (l m : List Text) → parse_lines c (l ++ m) ≡ parse_lines c l ++ parse_lines c m
  unfolding parse_lines
  parse_lines-append [] m = refl
  parse_lines-append (x ∷ l) m = ground (arith, parse_lines-append l m)

  entries-append : (l m : List Text) → entries c (l ++ m) ≡ entries c l ++ entries c m
  unfolding entries
  entries-append l m =
      ap (parse_lines c) (raw_lines-append l m) ∙ parse_lines-append (raw_lines c l) (raw_lines c m)

  Parses-prefix : (l m : List Text) → Parses c (l ++ m) → Parses c l
  Parses-prefix [] m h = tt
  Parses-prefix (x ∷ l) m h = (h.0, Parses-prefix l m h.1)

  IsChain-prefix :
      (i : ℕ) (p : String) (es fs : List Json) → IsChain c i p (es ++ fs) → IsChain c i p es
  IsChain-prefix i p [] fs h = tt
  IsChain-prefix i p (e ∷ es) fs (f, linked, rest) =
      (f, linked, IsChain-prefix (suc i) (hash_body c f.body) es fs rest)

  -- A verified file stays verified when any number of its last lines are deleted.
  pub truncation_verifies :
      (lines deleted : List Text)
      → (verify_chain c (lines ++ deleted)).0 ≡ true
      → verify_chain c lines ≡ (true, chain_intact (length (entries c lines)))
  truncation_verifies lines deleted h =
      let (parses, chain) = (verify_chain_iff c (lines ++ deleted)).0 h in
      verify_chain-chain c lines
        (Parses-prefix (raw_lines c lines) (raw_lines c deleted)
          (subst (Parses c) (raw_lines-append lines deleted) parses))
        (IsChain-prefix 0 genesis_prev (entries c lines) (entries c deleted)
          (subst (IsChain c 0 genesis_prev) (entries-append lines deleted) chain))
