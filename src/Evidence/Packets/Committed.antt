-- ===== src/Evidence/Packets/Committed.antt =====
-- A committed packet is found again: its entry is in a verified file, and reading it gives it back.
use sat_sa_with_pqc.Base.{
  ◌+◌, String, ◌==◌, eq_iff, eq_refl, ◌≡◌, refl, inl, inr, ap, ◌∙◌, subst, true, false, none, some,
  List, [], ◌∷◌, ◌++◌, ok, arith, length, Bool-cases,
}
use sat_sa_with_pqc.Base.Int.{ℤ}
use sat_sa_with_pqc.Json.{Json, obj}
use sat_sa_with_pqc.Evidence.Codec.{Codec, is_digest}
use sat_sa_with_pqc.Evidence.Store.{Files, read_file, put}
use sat_sa_with_pqc.Evidence.Store.Laws.{IsIntact, put_lem, get_if_exists-put}
use sat_sa_with_pqc.Evidence.Packet.{VerificationPacket, to_dict, digest}
use sat_sa_with_pqc.Evidence.Packet.RoundTrip.{packet_round_trip}
use sat_sa_with_pqc.Evidence.Chain.{
  Body, entry_json, entries, hash_body, verify_chain, chain_intact,
}
use sat_sa_with_pqc.Evidence.Chain.Growth.{append-verify_chain, entries-dumps}
use sat_sa_with_pqc.Evidence.Packets.{
  Ledger, record_of, find_packet_in, packet_dict, packet_record, check_packet, commit_packet,
  append_packet, get_packet, get_packet_by_digest, verify_packet, packet_intact, read_packet,
}

module _ (c : Codec) where
  open c use {
    Text, dumps, loads, canonical_json, sha3_hex, loads-canonical_json, is_digest-sha3_hex,
  }

  -- The entry that a packet is committed by.
  abbrev pub CommitsTo : Body → VerificationPacket → Type 0
  CommitsTo b p = b.recorded ≡ packet_record c p

  pub record_of-entry :
      (b : Body) (h : String) (p : VerificationPacket)
      → CommitsTo b p
      → record_of (entry_json b h) ≡ ok (packet_dict c p)
  unfolding record_of entry_json
  record_of-entry b h p e = rw e

  find-append :
      (es : List Json) (b : Body) (h : String) (p : VerificationPacket)
      → CommitsTo b p
      → find_packet_in p.packet_id es ≡ ok none
      → find_packet_in p.packet_id (es ++ entry_json b h ∷ []) ≡ ok (some (entry_json b h))
  unfolding find_packet_in
  find-append [] b h p e absent = rw (record_of-entry b h p e) (rw (eq_refl p.packet_id))
  find-append (x ∷ es) b h p e absent = ground (arith, find-append es b h p e)

  -- The store has nothing else under the digest of the packet.
  abbrev pub HasRoom : VerificationPacket → Files c → Type 0
  HasRoom p files =
      (old : Text)
      → read_file c (digest c p) files ≡ some old
      → old ≡ canonical_json (obj (to_dict p))

  read_packet-own :
      (p : VerificationPacket) (v : Json)
      → v ≡ obj (to_dict p)
      → read_packet c (digest c p) (some v) ≡ some p
  unfolding read_packet digest
  read_packet-own p v same = rw (same, packet_round_trip p) (rw (eq_refl (digest c p)))

  get_by_digest-put :
      (p : VerificationPacket) (files : Files c)
      → HasRoom p files
      → get_packet_by_digest c (digest c p) (put c (canonical_json (obj (to_dict p))) files).1
        ≡ some p
  unfolding get_packet_by_digest digest
  get_by_digest-put p files room =
      rw
        (
          is_digest-sha3_hex (canonical_json (obj (to_dict p))),
          get_if_exists-put c (canonical_json (obj (to_dict p))) files room,
          loads-canonical_json (obj (to_dict p)),
        )
        (read_packet-own p (obj (to_dict p)) refl)

  pub digest_nonempty : (d : String) → is_digest d ≡ true → (d == "") ≡ false
  unfolding is_digest
  digest_nonempty d h = elim (Bool-cases (d == "")) [
    | inl empty ↦ cc (subst (λ s. is_digest s ≡ true) ((eq_iff d "").0 empty) h)
    | inr nonempty ↦ nonempty
  ]

  digest-IsDigest : (p : VerificationPacket) → is_digest (digest c p) ≡ true
  unfolding digest
  digest-IsDigest p = is_digest-sha3_hex (canonical_json (obj (to_dict p)))

  digest-nonempty : (p : VerificationPacket) → (digest c p == "") ≡ false
  digest-nonempty p = digest_nonempty (digest c p) (digest-IsDigest p)

  -- What a caller may rely on once a packet is committed.
  pub record IsCommitted (p : VerificationPacket) (before after : Ledger c) : Type 0 where
    pub verified :
        verify_chain c after.lines ≡ (true, chain_intact (length (entries c before.lines) + 1))
    pub intact : IsIntact c after.packet_store
    pub readable : get_packet c p.packet_id after ≡ ok (some p)
    pub confirmed : verify_packet c p.packet_id after ≡ ok (true, packet_intact)

  -- Reading and confirming a packet whose entry and body are found.
  reads_back :
      (p : VerificationPacket) (l : Ledger c) (b : Body) (h : String)
      → CommitsTo b p
      → find_packet_in p.packet_id (entries c l.lines) ≡ ok (some (entry_json b h))
      → get_packet_by_digest c (digest c p) l.packet_store ≡ some p
      → (get_packet c p.packet_id l ≡ ok (some p))
        × (verify_packet c p.packet_id l ≡ ok (true, packet_intact))
  unfolding get_packet verify_packet
  reads_back p l b h e found body = (
    rw (found, record_of-entry b h p e, digest-nonempty p, body),
    rw (found, record_of-entry b h p e, digest-nonempty p, digest-IsDigest p, body),
  )

  check_packet-absent :
      (p : VerificationPacket) (l : Ledger c)
      → check_packet c p l ≡ ok tt
      → find_packet_in p.packet_id (entries c l.lines) ≡ ok none
  unfolding check_packet
  check_packet-absent p l h = ground arith

  commit_packet-IsCommitted :
      (now : ℤ) (p : VerificationPacket) (l : Ledger c)
      → (verify_chain c l.lines).0 ≡ true
      → IsIntact c l.packet_store
      → HasRoom p l.packet_store
      → find_packet_in p.packet_id (entries c l.lines) ≡ ok none
      → (entry : Json) × (after : Ledger c) × (commit_packet c now p l ≡ (ok entry, after))
        × IsCommitted p l after
  unfolding commit_packet digest
  commit_packet-IsCommitted now p l h intact room absent =
      let (b, appended, recorded, _, _, verified) =
        append-verify_chain c l.lines now (packet_record c p) h in
      let text : Text = canonical_json (obj (to_dict p)) in
      let (kept, stored, _) = put_lem c text l.packet_store intact in
      let entry : Json = entry_json b (hash_body c b) in
      let after : Ledger c = record {
        lines = l.lines ++ dumps entry ∷ [];
        packet_store = (put c text l.packet_store).1;
      } in
      let found =
        ap (find_packet_in p.packet_id) (entries-dumps c l.lines entry)
        ∙ find-append (entries c l.lines) b (hash_body c b) p recorded absent in
      let body = get_by_digest-put p l.packet_store room in
      let (readable, confirmed) = reads_back p after b (hash_body c b) recorded found body in
      (
        entry,
        after,
        rw (stored, eq_refl (digest c p), appended),
        record { verified = verified; intact = kept; readable = readable; confirmed = confirmed },
      )

  -- Suppose the ledger is verified, its store intact, and the store has no other text under the
  -- packet's digest. Then a packet that passes the checks is committed: the file stays verified with
  -- one entry more, the store stays intact, `get_packet` returns the packet and `verify_packet`
  -- confirms it.
  pub append_packet-IsCommitted :
      (now : ℤ) (p : VerificationPacket) (l : Ledger c)
      → (verify_chain c l.lines).0 ≡ true
      → IsIntact c l.packet_store
      → HasRoom p l.packet_store
      → check_packet c p l ≡ ok tt
      → (entry : Json) × (after : Ledger c) × (append_packet c now p l ≡ (ok entry, after))
        × IsCommitted p l after
  unfolding append_packet
  append_packet-IsCommitted now p l h intact room passes =
      rw (passes, append_packet)
        (commit_packet-IsCommitted now p l h intact room (check_packet-absent p l passes))
