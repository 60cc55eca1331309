-- ===== src/Evidence/Tests.antt =====
-- qsmlops/evidence: a concrete codec, a small ledger, and the theorems at them.
use sat_sa_with_pqc.Base.{
  ◌+◌, String, eq_iff, ◌≡◌, ◌↔◌, refl, true, false, Option, none, some, List, [], ◌∷◌, ◌++◌, ok,
  err, length,
}
use sat_sa_with_pqc.Base.Int.{pos}
use sat_sa_with_pqc.Json.{Json, end, field, str, num, obj, null}
use sat_sa_with_pqc.Evidence.Codec.{Codec, is_digest}
use sat_sa_with_pqc.Evidence.Store.{put, get_if_exists, read_file, write_new}
use sat_sa_with_pqc.Evidence.Store.Laws.{IsIntact, put_lem}
use sat_sa_with_pqc.Evidence.Packet.{
  VerificationPacket, to_dict, from_dict, checks_list, read_checks, read_check, digest,
}
use sat_sa_with_pqc.Evidence.Packet.RoundTrip.{packet_round_trip}
use sat_sa_with_pqc.Evidence.Sensitive.{
  contains_sensitive, key_is_sensitive, IsClean, contains_sensitive_lem,
}
use sat_sa_with_pqc.Evidence.Chain.{
  Body, entry_json, entries, hash_body, append, verify_chain, chain_intact, raw_lines, genesis_prev,
  check_fields, chain_fields, already_exists,
}
use sat_sa_with_pqc.Evidence.Chain.Spec.{Parses, IsChain, verify_chain_iff}
use sat_sa_with_pqc.Evidence.Chain.Growth.{append-verify_chain}
use sat_sa_with_pqc.Evidence.Chain.Tamper.{truncation_verifies}
use sat_sa_with_pqc.Evidence.Packets.{
  Ledger, check_packet, commit_packet, append_packet, get_packet, list_packet_ids, find_packet_in,
  packet_ids_in, get_packet_by_digest, read_packet, record_of,
}
use sat_sa_with_pqc.Evidence.Packets.Unique.{append_packet_twice, overlapping_commits}

-- A text is a parsed value or no JSON at all; the digest tells only these two apart.
abbrev pub toy_digest : Option Json → String
toy_digest none = "bbbbbbbbbbbbbbbbbbbbbbbbbbbbbbbbbbbbbbbbbbbbbbbbbbbbbbbbbbbbbbbb"
toy_digest (some v) = "aaaaaaaaaaaaaaaaaaaaaaaaaaaaaaaaaaaaaaaaaaaaaaaaaaaaaaaaaaaaaaaa"

pub toy_digest-IsDigest : (t : Option Json) → is_digest (toy_digest t) ≡ true
unfolding is_digest
toy_digest-IsDigest none = refl
toy_digest-IsDigest (some v) = refl

abbrev pub toy : Codec
toy = record {
  Text = Option Json;
  dumps = λ v. some v;
  canonical_json = λ v. some v;
  loads = λ t. t;
  strip = λ t. t;
  is_empty = λ t. false;
  sha3_hex = toy_digest;
  loads-dumps = λ v. refl;
  loads-canonical_json = λ v. refl;
  strip-dumps = λ v. refl;
  is_empty-dumps = λ v. refl;
  is_digest-sha3_hex = toy_digest-IsDigest;
}

abbrev pub event : Json
event = obj (field "kind" (str "started") end)

abbrev first_body : Body
first_body = record {
  prev_hash = str genesis_prev;
  recorded = event;
  seq = num (pos 0);
  timestamp = num (pos 5);
}

abbrev one_line : List (Option Json)
one_line = some (entry_json first_body (toy_digest (some null))) ∷ []

append_first :
    append toy (pos 5) event [] ≡ ok (entry_json first_body (toy_digest (some null)), one_line)
unfolding append entry_json
append_first = refl

verified_line : (verify_chain toy one_line).0 ≡ true
unfolding verify_chain raw_lines entry_json check_fields chain_fields
verified_line = refl

verify_chain_iff_example :
    ((verify_chain toy one_line).0 ≡ true)
    ↔ (Parses toy (raw_lines toy one_line) × IsChain toy 0 genesis_prev (entries toy one_line))
verify_chain_iff_example = verify_chain_iff toy one_line

append-verify_chain_example :
    (b : Body) × (append toy (pos 7) event one_line
      ≡ ok (entry_json b (hash_body toy b), one_line ++ some (entry_json b (hash_body toy b)) ∷ []))
    × (b.recorded ≡ event)
    × (b.timestamp ≡ num (pos 7))
    × (b.seq ≡ num (pos (length (entries toy one_line))))
    × (verify_chain toy (one_line ++ some (entry_json b (hash_body toy b)) ∷ [])
        ≡ (true, chain_intact (length (entries toy one_line) + 1)))
append-verify_chain_example = append-verify_chain toy one_line (pos 7) event verified_line

truncation_verifies_example : verify_chain toy [] ≡ (true, chain_intact (length (entries toy [])))
truncation_verifies_example = truncation_verifies toy [] one_line verified_line

abbrev pub packet : VerificationPacket
packet = record {
  packet_id = "p1";
  objective = "deploy";
  actor = "supervisor";
  created_at = pos 4;
  inputs = field "model" (str "m1") end;
  artifacts = end;
  metrics = end;
  security_checks = record { name = "signed"; passed = true; severity = "HIGH"; detail = "" } ∷ [];
  proofs = end;
  decision = "ACCEPT";
  status = "OPEN";
}

packet_round_trip_example : from_dict (to_dict packet) ≡ ok packet
packet_round_trip_example = packet_round_trip packet

contains_sensitive_lem_example :
    (contains_sensitive (obj (to_dict packet)) ≡ none) ↔ IsClean (obj (to_dict packet))
contains_sensitive_lem_example = contains_sensitive_lem (obj (to_dict packet))

abbrev leaking : VerificationPacket
leaking = record packet { proofs = field "HSM_PIN" (num (pos 1234)) end }

leaking_found : contains_sensitive (obj (to_dict leaking)) ≡ some "HSM_PIN"
unfolding contains_sensitive to_dict key_is_sensitive checks_list
leaking_found = refl

packet_clean : contains_sensitive (obj (to_dict packet)) ≡ none
unfolding contains_sensitive to_dict key_is_sensitive checks_list
packet_clean = refl

abbrev ledger : Ledger toy
ledger = record { lines = one_line; packet_store = [] }

packet_passes : check_packet toy packet ledger ≡ ok tt
unfolding check_packet contains_sensitive to_dict entries entry_json key_is_sensitive checks_list
    find_packet_in
packet_passes = refl

abbrev committed : Ledger toy
committed = (commit_packet toy (pos 9) packet ledger).1

packet_readable : get_packet toy "p1" committed ≡ ok (some packet)
unfolding get_packet commit_packet find_packet_in entries put digest append entry_json
    get_packet_by_digest is_digest get_if_exists read_file write_new read_packet from_dict to_dict
    read_checks checks_list read_check record_of
packet_readable = refl

append_packet_twice_example :
    append_packet toy (pos 11) packet committed ≡ (err (already_exists "p1"), committed)
append_packet_twice_example =
    append_packet_twice toy (pos 11) packet packet committed packet_readable refl packet_clean

overlapping_commits_example :
    (d : Json) × (e : Json) × (m : Ledger toy) × (n : Ledger toy) × (commit_packet toy
        (pos 9)
        packet
        ledger
      ≡ (ok d, m))
    × (commit_packet toy (pos 10) packet m ≡ (ok e, n))
    × (list_packet_ids toy n ≡ ok (str "p1" ∷ str "p1" ∷ []))
unfolding entry_json packet_ids_in entries
overlapping_commits_example =
    overlapping_commits toy (pos 9) (pos 10) packet packet ledger [] verified_line packet_passes
      packet_passes refl (λ e. cc ((eq_iff "p1" "").1 e)) refl

put_lem_example :
    IsIntact toy (put toy (some event) []).1
    × ((put toy (some event) []).0 ≡ toy_digest (some event))
    × ((body : Option Json) × (get_if_exists toy
            (toy_digest (some event))
            (put toy (some event) []).1
          ≡ ok (some body))
        × (toy_digest body ≡ toy_digest (some event)))
put_lem_example = put_lem toy (some event) [] tt
