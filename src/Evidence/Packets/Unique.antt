-- ===== src/Evidence/Packets/Unique.antt =====
-- A packet id that can be read cannot be committed again, unless two calls overlap.
use mathlib.Core.List.{append_assoc}
use sat_sa_with_pqc.Base.{
  String, ◌≡◌, ◌≢◌, ap, sym, ◌∙◌, true, none, some, List, [], ◌∷◌, ◌++◌, ok, err, arith,
  Result-cases, eq_refl, inl, inr,
}
use sat_sa_with_pqc.Base.Int.{ℤ}
use sat_sa_with_pqc.Json.{Json, str, obj, nonempty}
use sat_sa_with_pqc.Evidence.Codec.{Codec}
use sat_sa_with_pqc.Evidence.Store.{put}
use sat_sa_with_pqc.Evidence.Packet.{VerificationPacket, to_dict, digest}
use sat_sa_with_pqc.Evidence.Sensitive.{contains_sensitive}
use sat_sa_with_pqc.Evidence.Chain.{
  sensitive_field, already_exists, Body, entry_json, entries, hash_body, verify_chain,
}
use sat_sa_with_pqc.Evidence.Chain.Growth.{append-verify_chain, entries-dumps}
use sat_sa_with_pqc.Evidence.Packets.{
  Ledger, find_packet_in, packet_ids_in, list_packet_ids, packet_record, check_packet,
  commit_packet, append_packet, get_packet,
}
use sat_sa_with_pqc.Evidence.Packets.Committed.{CommitsTo, record_of-entry}

module _ (c : Codec) where
  open c use {Text, dumps, canonical_json}

  -- A packet that can be read is never replaced: committing another one under its id is refused,
  -- whatever its body, if it holds no sensitive field, and the ledger is left as it was.
  pub append_packet_twice :
      (now : ℤ) (p q : VerificationPacket) (l : Ledger c)
      → get_packet c p.packet_id l ≡ ok (some p)
      → q.packet_id ≡ p.packet_id
      → contains_sensitive (obj (to_dict q)) ≡ none
      → append_packet c now q l ≡ (err (already_exists p.packet_id), l)
  unfolding append_packet check_packet get_packet
  append_packet_twice now p q l readable same clean =
      elim (Result-cases (find_packet_in p.packet_id (entries c l.lines))) [
        | inl (e, fault) ↦ cc
        | inr (none, absent) ↦ ground arith
        | inr (some e, present) ↦ ground arith
      ]

  -- A packet with a sensitive field name at any depth is refused, and nothing is stored.
  pub append_packet_sensitive :
      (now : ℤ) (p : VerificationPacket) (l : Ledger c) (k : String)
      → contains_sensitive (obj (to_dict p)) ≡ some k
      → append_packet c now p l ≡ (err (sensitive_field k), l)
  unfolding append_packet check_packet
  append_packet_sensitive now p l k found = rw (found, append_packet, check_packet)

  commit_packet-entries :
      (now : ℤ) (p : VerificationPacket) (l : Ledger c)
      → (verify_chain c l.lines).0 ≡ true
      → (b : Body) × (after : Ledger c) × (commit_packet c now p l
          ≡ (ok (entry_json b (hash_body c b)), after))
        × CommitsTo c b p
        × (entries c after.lines ≡ entries c l.lines ++ entry_json b (hash_body c b) ∷ [])
        × ((verify_chain c after.lines).0 ≡ true)
  unfolding commit_packet put digest
  commit_packet-entries now p l h =
      let (b, appended, recorded, _, _, verified) =
        append-verify_chain c l.lines now (packet_record c p) h in
      let entry : Json = entry_json b (hash_body c b) in
      let after : Ledger c = record {
        lines = l.lines ++ dumps entry ∷ [];
        packet_store = (put c (canonical_json (obj (to_dict p))) l.packet_store).1;
      } in
      (
        b,
        after,
        rw (eq_refl (digest c p), appended),
        recorded,
        entries-dumps c l.lines entry,
        ap (λ r. r.0) verified,
      )

  packet_ids-append :
      (es : List Json) (b : Body) (h : String) (p : VerificationPacket) (ids : List Json)
      → CommitsTo c b p
      → p.packet_id ≢ ""
      → packet_ids_in es ≡ ok ids
      → packet_ids_in (es ++ entry_json b h ∷ []) ≡ ok (ids ++ str p.packet_id ∷ [])
  unfolding packet_ids_in
  packet_ids-append [] b h p ids e set listed =
      rw (record_of-entry c b h p e, nonempty p.packet_id set) (cc)
  packet_ids-append (x ∷ es) b h p ids e set listed = elim (Result-cases (packet_ids_in es)) [
    | inl (f, fault) ↦ ground arith
    | inr (rest, ids_of_rest) ↦ ground (arith, packet_ids-append es b h p rest e set ids_of_rest)
  ]

  -- The check for a new id and the commit are not one step under the lock. If two calls with one
  -- packet id both pass the check on the same verified ledger, and then both commit, both succeed
  -- and the id is listed twice.
  pub overlapping_commits :
      (t u : ℤ) (p q : VerificationPacket) (l : Ledger c) (ids : List Json)
      → (verify_chain c l.lines).0 ≡ true
      → check_packet c p l ≡ ok tt
      → check_packet c q l ≡ ok tt
      → q.packet_id ≡ p.packet_id
      → p.packet_id ≢ ""
      → list_packet_ids c l ≡ ok ids
      → (d e : Json) × (m n : Ledger c) × (commit_packet c t p l ≡ (ok d, m))
        × (commit_packet c u q m ≡ (ok e, n))
        × (list_packet_ids c n ≡ ok (ids ++ str p.packet_id ∷ str p.packet_id ∷ []))
  overlapping_commits t u p q l ids h cp cq same set listed =
      let (a, m, committed, fa, grown, verified) = commit_packet-entries t p l h in
      let (b, n, committed_too, fb, grown_too, _) = commit_packet-entries u q m verified in
      let first = packet_ids-append (entries c l.lines) a (hash_body c a) p ids fa set listed in
      let second =
        packet_ids-append (entries c m.lines) b (hash_body c b) q (ids ++ str p.packet_id ∷ []) fb
          (λ e. set (sym same ∙ e)) (ap packet_ids_in grown ∙ first) in
      (
        entry_json a (hash_body c a),
        entry_json b (hash_body c b),
        m,
        n,
        committed,
        committed_too,
        ap packet_ids_in grown_too
            ∙ second
            ∙ ap ok (
                append_assoc ids (str p.packet_id ∷ []) (str q.packet_id ∷ [])
                ∙ ap (λ i. ids ++ str p.packet_id ∷ str i ∷ []) same),
      )
