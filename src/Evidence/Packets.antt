-- ===== src/Evidence/Packets.antt =====
-- The packet persistence of `EvidenceLedger`, qsmlops/evidence/ledger.py: `append_packet`, the
-- searches, and the reads that check the digest. A method returns its result or fault beside the
-- ledger, since the store keeps a body whose entry was refused. Failures of the disk are not modelled.
pub mod Committed
pub mod Unique
use sat_sa_with_pqc.Base.{
  String, ◌==◌, Bool, true, false, not, ◌&&◌, Option, none, some, List, [], ◌∷◌, Result, ok, err,
  ◌>>=◌, ◌>>◌, raise_if, if◌then◌else◌,
}
use sat_sa_with_pqc.Base.Int.{ℤ}
use sat_sa_with_pqc.Json.{Json, Dict, end, field, null, str, obj, get_or, truthy}
use sat_sa_with_pqc.Evidence.Codec.{Codec, is_digest}
use sat_sa_with_pqc.Evidence.Store.{Files, put, get_if_exists, read_file}
use sat_sa_with_pqc.Evidence.Packet.{VerificationPacket, to_dict, from_dict, digest}
use sat_sa_with_pqc.Evidence.Sensitive.{contains_sensitive}
use sat_sa_with_pqc.Evidence.Chain.{
  Fault, sensitive_field, already_exists, digest_mismatch, attribute_error, eq_text, entries,
  append,
}

-- `entry.get("record", {})`, read as a `dict`.
unfoldable pub record_of : Json → Result Fault Dict
record_of (obj d) = elim (get_or "record" (obj end) d) [ obj r ↦ ok r | _ ↦ err attribute_error ]
record_of _ = err attribute_error

abbrev pub is_packet_record : String → Dict → Bool
is_packet_record packet_id r =
    eq_text (get_or "type" null r) "verification_packet"
    && eq_text (get_or "packet_id" null r) packet_id

unfoldable pub find_packet_in : String → List Json → Result Fault (Option Json)
unfolding record_of
find_packet_in packet_id [] = ok none
find_packet_in packet_id (e ∷ es) =
    let rest = find_packet_in packet_id es in
    do r ← record_of e; if is_packet_record packet_id r then ok (some e) else rest

unfoldable pub find_any_in : String → List Json → Result Fault (Option Json)
unfolding record_of
find_any_in packet_id [] = ok none
find_any_in packet_id (e ∷ es) =
    let rest = find_any_in packet_id es in
    do r ← record_of e; if eq_text (get_or "packet_id" null r) packet_id then ok (some e) else rest

-- The loop of `list_packet_ids`.
unfoldable pub packet_ids_in : List Json → Result Fault (List Json)
unfolding record_of
packet_ids_in [] = ok []
packet_ids_in (e ∷ es) = do
  r ← record_of e
  rest ← packet_ids_in es
  let pid = get_or "packet_id" null r
  ok (
      if eq_text (get_or "type" null r) "verification_packet" && truthy pid
      then pid ∷ rest
      else rest)

abbrev pub refuse_sensitive : Option String → Result Fault (Unit {0})
refuse_sensitive none = ok tt
refuse_sensitive (some k) = err (sensitive_field k)

abbrev pub refuse_existing : String → Option Json → Result Fault (Unit {0})
refuse_existing packet_id none = ok tt
refuse_existing packet_id (some e) = err (already_exists packet_id)

module _ (c : Codec) where
  open c use {Text, canonical_json, loads}

  pub record Ledger : Type 0 where
    pub lines : List Text
    pub packet_store : Files c

  abbrev pub find_by_packet : String → Ledger → Result Fault (Option Json)
  find_by_packet packet_id l = find_packet_in packet_id (entries c l.lines)

  abbrev pub find_any_by_packet_id : String → Ledger → Result Fault (Option Json)
  find_any_by_packet_id packet_id l = find_any_in packet_id (entries c l.lines)

  abbrev pub list_packet_ids : Ledger → Result Fault (List Json)
  list_packet_ids l = packet_ids_in (entries c l.lines)

  abbrev pub packet_dict : VerificationPacket → Dict
  packet_dict p = field "actor" (str p.actor) (
      field "decision" (str p.decision) (
        field "digest" (str (digest c p)) (
          field "objective" (str p.objective)
            (field "packet_id" (str p.packet_id) (field "type" (str "verification_packet") end)))))

  abbrev pub packet_record : VerificationPacket → Json
  packet_record p = obj (packet_dict p)

  -- Steps 1 and 2 of `append_packet`: no sensitive field, and a packet id that is new.
  unfoldable pub check_packet : VerificationPacket → Ledger → Result Fault (Unit {0})
  check_packet p l = do
    refuse_sensitive (contains_sensitive (obj (to_dict p)))
    existing ← find_by_packet p.packet_id l
    refuse_existing p.packet_id existing

  abbrev pub with_lines : Ledger → Result Fault (Json × List Text) → Result Fault Json × Ledger
  with_lines l (ok (entry, lines)) = (ok entry, record l { lines = lines })
  with_lines l (err e) = (err e, l)

  -- Steps 3 and 4, after the lock of step 2 was released: store the body, then append the entry.
  unfoldable pub commit_packet : ℤ → VerificationPacket → Ledger → Result Fault Json × Ledger
  commit_packet now p l =
      let (stored, files) = put c (canonical_json (obj (to_dict p))) l.packet_store in
      let l' : Ledger = record l { packet_store = files } in
      if stored == digest c p
      then with_lines l' (append c now (packet_record p) l.lines)
      else (err (digest_mismatch stored (digest c p)), l')

  unfoldable pub append_packet : ℤ → VerificationPacket → Ledger → Result Fault Json × Ledger
  append_packet now p l = elim (check_packet p l) [
    | ok _ ↦ commit_packet now p l
    | err e ↦ (err e, l)
  ]

  -- `VerificationPacket.from_dict(json.loads(body))`, with every exception caught, and the digest
  -- of the result compared with the one asked for.
  unfoldable pub read_packet : String → Option Json → Option VerificationPacket
  read_packet wanted (some (obj d)) = elim (from_dict d) [
    | ok p ↦ if digest c p == wanted then some p else none
    | err e ↦ none
  ]
  read_packet wanted _ = none

  unfoldable pub get_packet_by_digest : String → Files c → Option VerificationPacket
  get_packet_by_digest wanted files =
      if is_digest wanted
      then elim (get_if_exists c wanted files) [
        | ok (some body) ↦ read_packet wanted (loads body)
        | ok none ↦ none
        | err e ↦ none
      ]
      else none

  -- A digest that is no text counts as missing.
  abbrev pub packet_at : Json → Files c → Option VerificationPacket
  packet_at (str d) files = if d == "" then none else get_packet_by_digest d files
  packet_at _ files = none

  abbrev pub packet_of_entry : Option Json → Files c → Result Fault (Option VerificationPacket)
  packet_of_entry none files = ok none
  packet_of_entry (some e) files = do r ← record_of e; ok (packet_at (get_or "digest" null r) files)

  unfoldable pub get_packet : String → Ledger → Result Fault (Option VerificationPacket)
  get_packet packet_id l = do
    found ← find_by_packet packet_id l
    packet_of_entry found l.packet_store

  pub data PacketVerdict : Type 0 where
    no_entry no_digest malformed body_missing tampered packet_intact : PacketVerdict

  abbrev pub missing_or_tampered : Option Text → PacketVerdict
  missing_or_tampered none = body_missing
  missing_or_tampered (some body) = tampered

  -- `verify_packet` on the digest of the entry.
  abbrev pub verify_digest : Json → Files c → Bool × PacketVerdict
  verify_digest (str d) files =
      if d == ""
      then (false, no_digest)
      else if not (is_digest d)
      then (false, malformed)
      else elim (get_packet_by_digest d files) [
        | none ↦ (false, missing_or_tampered (read_file c d files))
        | some p ↦ (true, packet_intact)
      ]
  verify_digest _ files = (false, no_digest)

  abbrev pub verify_entry : Option Json → Files c → Result Fault (Bool × PacketVerdict)
  verify_entry none files = ok (false, no_entry)
  verify_entry (some e) files = do
    r ← record_of e
    ok (verify_digest (get_or "digest" null r) files)

  unfoldable pub verify_packet : String → Ledger → Result Fault (Bool × PacketVerdict)
  verify_packet packet_id l = do
    found ← find_by_packet packet_id l
    verify_entry found l.packet_store
