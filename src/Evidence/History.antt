-- ===== src/Evidence/History.antt =====
-- qsmlops/evidence: two different files of one history, and a store of another body, under a hash
-- that tells an approval from everything else.
use sat_sa_with_pqc.Base.{
  String, ◌==◌, ◌≡◌, refl, Bool, true, false, Option, none, some, List, [], ◌∷◌, ok, length,
}
use sat_sa_with_pqc.Base.Int.{pos}
use sat_sa_with_pqc.Json.{Json, end, field, str, num, obj, get}
use sat_sa_with_pqc.Evidence.Codec.{Codec, is_digest}
use sat_sa_with_pqc.Evidence.Packet.{to_dict, checks_list, digest}
use sat_sa_with_pqc.Evidence.Store.{read_file}
use sat_sa_with_pqc.Evidence.Sensitive.{contains_sensitive, key_is_sensitive}
use sat_sa_with_pqc.Evidence.Chain.{
  Body, body_json, entry_json, entries, head, verify_chain, raw_lines, genesis_prev, check_fields,
  chain_fields,
}
use sat_sa_with_pqc.Evidence.Chain.Tamper.{NoCollision, bodies, same_head_same_history}
use sat_sa_with_pqc.Evidence.Packets.{Ledger, check_packet, append_packet, find_packet_in}
use sat_sa_with_pqc.Evidence.Packets.Committed.{IsCommitted, append_packet-IsCommitted}
use sat_sa_with_pqc.Evidence.Tests.{packet}

abbrev is_approved : Option Json → Bool
is_approved (some (str s)) = s == "approved"
is_approved _ = false

abbrev is_approval : Option Json → Bool
is_approval (some (obj d)) = is_approved (get "kind" d)
is_approval _ = false

abbrev outcome : String → Json
outcome s = obj (field "kind" (str s) end)

-- Whether the text is an object whose record is the approval.
abbrev records_approval : Option Json → Bool
records_approval (some (obj d)) = is_approval (get "record" d)
records_approval _ = false

abbrev digest_of : Bool → String
digest_of true = "cccccccccccccccccccccccccccccccccccccccccccccccccccccccccccccccc"
digest_of false = "dddddddddddddddddddddddddddddddddddddddddddddddddddddddddddddddd"

digest_of-IsDigest : (b : Bool) → is_digest (digest_of b) ≡ true
unfolding is_digest
digest_of-IsDigest true = refl
digest_of-IsDigest false = refl

abbrev blank : Option Json → Bool
blank none = true
blank (some v) = false

-- A text is a parsed value or a blank line.
abbrev telling : Codec
telling = record {
  Text = Option Json;
  dumps = λ v. some v;
  canonical_json = λ v. some v;
  loads = λ t. t;
  strip = λ t. t;
  is_empty = blank;
  sha3_hex = λ t. digest_of (records_approval t);
  loads-dumps = λ v. refl;
  loads-canonical_json = λ v. refl;
  strip-dumps = λ v. refl;
  is_empty-dumps = λ v. refl;
  is_digest-sha3_hex = λ t. digest_of-IsDigest (records_approval t);
}

abbrev recording : String → Body
recording s = record {
  prev_hash = str genesis_prev;
  recorded = outcome s;
  seq = num (pos 0);
  timestamp = num (pos 5);
}

abbrev one_entry : String → Bool → List (Option Json)
one_entry s approves = some (entry_json (recording s) (digest_of approves)) ∷ []

-- The same entry with a field that is not hashed, after a blank line.
abbrev annotated : List (Option Json)
annotated =
    none
    ∷ some (
        obj (
          field "note" (str "read") (
            field "entry_hash" (str (digest_of true)) (
              field "prev_hash" (str genesis_prev) (
                field "record" (outcome "approved")
                  (field "seq" (num (pos 0)) (field "timestamp" (num (pos 5)) end)))))))
    ∷ []

approval_verified : (verify_chain telling (one_entry "approved" true)).0 ≡ true
unfolding verify_chain raw_lines entry_json body_json check_fields chain_fields
approval_verified = refl

annotated_verified : (verify_chain telling annotated).0 ≡ true
unfolding verify_chain raw_lines body_json check_fields chain_fields
annotated_verified = refl

-- Another history verifies too, and has another head.
refusal_verified : (verify_chain telling (one_entry "refused" false)).0 ≡ true
unfolding verify_chain raw_lines entry_json body_json check_fields chain_fields
refusal_verified = refl

other_head : head telling (one_entry "refused" false) ≡ ok (str (digest_of false))
unfolding head entries raw_lines entry_json
other_head = refl

no_collision :
    NoCollision telling
      (bodies (entries telling (one_entry "approved" true)))
      (bodies (entries telling annotated))
unfolding NoCollision entries raw_lines entry_json chain_fields
no_collision = ((λ same. refl), tt)

same_length :
    length (entries telling (one_entry "approved" true)) ≡ length (entries telling annotated)
unfolding entries raw_lines
same_length = refl

same_heads : head telling (one_entry "approved" true) ≡ head telling annotated
unfolding head entries raw_lines entry_json
same_heads = refl

same_head_same_history_example :
    bodies (entries telling (one_entry "approved" true)) ≡ bodies (entries telling annotated)
same_head_same_history_example =
    same_head_same_history telling (one_entry "approved" true) annotated approval_verified
      annotated_verified no_collision same_length same_heads

-- The store has an approval under its own digest.
abbrev stocked : Ledger telling
stocked = record {
  lines = one_entry "approved" true;
  packet_store = (digest_of true, some (obj (field "record" (outcome "approved") end))) ∷ [];
}

nothing_there : read_file telling (digest telling packet) stocked.packet_store ≡ none
unfolding read_file digest to_dict
nothing_there = refl

packet_passes : check_packet telling packet stocked ≡ ok tt
unfolding check_packet contains_sensitive to_dict entries raw_lines entry_json key_is_sensitive
    checks_list find_packet_in
packet_passes = refl

append_packet-IsCommitted_example :
    (entry : Json) × (after : Ledger telling) × (append_packet telling (pos 9) packet stocked
      ≡ (ok entry, after))
    × IsCommitted telling packet stocked after
append_packet-IsCommitted_example =
    append_packet-IsCommitted telling (pos 9) packet stocked approval_verified (refl, tt)
      (λ old found. cc (nothing_there, found)) packet_passes
