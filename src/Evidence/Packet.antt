-- ===== src/Evidence/Packet.antt =====
-- qsmlops/evidence/packet.py: the verification packet, its two translations to a `dict`, its digest
-- and its failed checks.
pub mod RoundTrip
use sat_sa_with_pqc.Base.{
  String, ◌==◌, Bool, true, false, not, ◌&&◌, Option, none, some, List, [], ◌∷◌, Result, ok, err,
  ◌>>=◌, ◌>>◌, raise_if, leb, if◌then◌else◌, ℕ,
}
use sat_sa_with_pqc.Base.Int.{ℤ}
use sat_sa_with_pqc.Json.{
  Json, Items, Dict, nil, cons, end, field, str, num, bool, arr, obj, ReadError, ill_typed,
  key_error, str_at, num_at, str_or, dict_or, list_or, as_dict, item, as_bool,
}
use sat_sa_with_pqc.Evidence.Codec.{Codec, digest_document}

pub record SecurityCheck : Type 0 where
  pub name : String
  pub passed : Bool
  pub severity : String
  pub detail : String

pub record VerificationPacket : Type 0 where
  pub packet_id : String
  pub objective : String
  pub actor : String
  pub created_at : ℤ
  pub inputs : Dict
  pub artifacts : Dict
  pub metrics : Dict
  pub security_checks : List SecurityCheck
  pub proofs : Dict
  pub decision : String
  pub status : String

-- `c.__dict__`
abbrev check_dict : SecurityCheck → Json
check_dict c = obj (
    field "detail" (str c.detail) (
      field "name" (str c.name)
        (field "passed" (bool c.passed) (field "severity" (str c.severity) end))))

unfoldable pub checks_list : List SecurityCheck → Items
checks_list [] = nil
checks_list (c ∷ cs) = cons (check_dict c) (checks_list cs)

unfoldable pub to_dict : VerificationPacket → Dict
to_dict p = field "actor" (str p.actor) (
    field "artifacts" (obj p.artifacts) (
      field "created_at" (num p.created_at) (
        field "decision" (str p.decision) (
          field "inputs" (obj p.inputs) (
            field "metrics" (obj p.metrics) (
              field "objective" (str p.objective) (
                field "packet_id" (str p.packet_id) (
                  field "proofs" (obj p.proofs) (
                    field "security_checks" (arr (checks_list p.security_checks))
                      (field "status" (str p.status) end))))))))))

-- `SecurityCheck(**c)` takes no other keyword.
abbrev check_fields : Dict → Bool
check_fields end = true
check_fields (field k v d) =
    let rest = check_fields d in
    if k == "name"
    then rest
    else if k == "passed"
    then rest
    else if k == "severity"
    then rest
    else if k == "detail"
    then rest
    else false

unfoldable pub read_check : Json → Result ReadError SecurityCheck
read_check c = do
  d ← as_dict "security_checks" c
  raise_if (not (check_fields d)) (ill_typed "security_checks")
  name ← str_at "name" d
  passed ← item "passed" d >>= as_bool "passed"
  severity ← str_or "severity" "LOW" d
  detail ← str_or "detail" "" d
  ok (record { name = name; passed = passed; severity = severity; detail = detail })

unfoldable pub read_checks : Items → Result ReadError (List SecurityCheck)
read_checks nil = ok []
read_checks (cons c cs) = do check ← read_check c; checks ← read_checks cs; ok (check ∷ checks)

unfoldable pub from_dict : Dict → Result ReadError VerificationPacket
from_dict d = do
  listed ← list_or "security_checks" nil d
  checks ← read_checks listed
  packet_id ← str_at "packet_id" d
  objective ← str_at "objective" d
  actor ← str_at "actor" d
  created_at ← num_at "created_at" d
  inputs ← dict_or "inputs" end d
  artifacts ← dict_or "artifacts" end d
  metrics ← dict_or "metrics" end d
  proofs ← dict_or "proofs" end d
  decision ← str_or "decision" "UNKNOWN" d
  status ← str_or "status" "CLOSED" d
  ok (record {
    packet_id = packet_id;
    objective = objective;
    actor = actor;
    created_at = created_at;
    inputs = inputs;
    artifacts = artifacts;
    metrics = metrics;
    security_checks = checks;
    proofs = proofs;
    decision = decision;
    status = status;
  })

module _ (c : Codec) where
  unfoldable pub digest : VerificationPacket → String
  digest p = digest_document c (obj (to_dict p))

-- `order.get(severity, 0)`
abbrev pub severity_rank : String → ℕ
severity_rank s =
    if s == "CRITICAL" then 3 else if s == "HIGH" then 2 else if s == "MEDIUM" then 1 else 0

-- `order[min_severity]`; `none` is KeyError.
abbrev pub severity_threshold : String → Option ℕ
severity_threshold s =
    if s == "LOW"
    then some 0
    else if s == "MEDIUM"
    then some 1
    else if s == "HIGH"
    then some 2
    else if s == "CRITICAL"
    then some 3
    else none

abbrev select_failed : ℕ → List SecurityCheck → List SecurityCheck
select_failed threshold [] = []
select_failed threshold (c ∷ cs) =
    let rest = select_failed threshold cs in
    if not c.passed && leb threshold (severity_rank c.severity) then c ∷ rest else rest

unfoldable pub failed_checks : String → VerificationPacket → Option (List SecurityCheck)
failed_checks min_severity p = elim (severity_threshold min_severity) [
  | none ↦ none
  | some threshold ↦ some (select_failed threshold p.security_checks)
]
