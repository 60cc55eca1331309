-- ===== src/Evidence/Chain.antt =====
-- `EvidenceLedger` of qsmlops/evidence/ledger.py: the file of lines, `append` and `verify_chain`.
-- The file is the list of its physical lines, each ended by a line feed. The lock is not modelled
-- here: a function is what one holder of the lock does.
pub mod Spec
pub mod Growth
pub mod Tamper
use sat_sa_with_pqc.Base.{
  ℕ, suc, String, ◌==◌, Bool, true, false, not, Option, none, some, List, [], ◌∷◌, ◌++◌, Result, ok,
  err, ◌>>=◌, or_raise, eqb, length, last?, if◌then◌else◌,
}
use sat_sa_with_pqc.Base.Int.{ℤ, pos, negsuc}
use sat_sa_with_pqc.Json.{Json, Dict, end, field, null, bool, num, str, arr, obj, get}
use sat_sa_with_pqc.Evidence.Codec.{Codec}

abbrev pub genesis_prev : String
genesis_prev = "0000000000000000000000000000000000000000000000000000000000000000"

-- What the ledger raises: its own `LedgerError`, and Python's errors on values of a wrong shape.
pub data Fault : Type 0 where
  sensitive_field : String → Fault
  already_exists : String → Fault
  digest_mismatch : String → String → Fault
  key_error : String → Fault
  type_error : Fault
  attribute_error : Fault

-- `e[k]`
abbrev pub subscript : String → Json → Result Fault Json
subscript k (obj d) = or_raise (get k d) (key_error k)
subscript k _ = err type_error

-- What `verify_chain` says beside its Boolean.
pub data Verdict : Type 0 where
  corrupted_line : ℕ → Verdict
  missing_chain_fields : ℕ → Verdict
  chain_break : ℕ → Verdict
  hash_mismatch : ℕ → Verdict
  sequence_gap : ℕ → Verdict
  chain_intact : ℕ → Verdict

-- The hashed part of an entry.
pub record Body : Type 0 where
  pub prev_hash : Json
  pub recorded : Json
  pub seq : Json
  pub timestamp : Json

unfoldable pub body_json : Body → Json
body_json b = obj (
    field "prev_hash" b.prev_hash
      (field "record" b.recorded (field "seq" b.seq (field "timestamp" b.timestamp end))))

unfoldable pub entry_json : Body → String → Json
entry_json b h = obj (
    field "entry_hash" (str h) (
      field "prev_hash" b.prev_hash
        (field "record" b.recorded (field "seq" b.seq (field "timestamp" b.timestamp end)))))

pub record ChainFields : Type 0 where
  pub body : Body
  pub entry_hash : Json

-- The chain fields of an entry; `none` if it is no `dict` or lacks one of them.
unfoldable pub chain_fields : Json → Option ChainFields
chain_fields (obj d) = elim (get "prev_hash" d) [
  | none ↦ none
  | some p ↦ elim (get "seq" d) [
    | none ↦ none
    | some s ↦ elim (get "timestamp" d) [
      | none ↦ none
      | some t ↦ elim (get "record" d) [
        | none ↦ none
        | some r ↦ elim (get "entry_hash" d) [
          | none ↦ none
          | some h ↦ some (record {
            body = record { prev_hash = p; recorded = r; seq = s; timestamp = t };
            entry_hash = h;
          })
        ]
      ]
    ]
  ]
]
chain_fields _ = none

-- `v == s` and `v == i`; `True` and `False` equal 1 and 0.
abbrev pub eq_text : Json → String → Bool
eq_text (str t) s = t == s
eq_text _ s = false

abbrev pub eq_count : Json → ℕ → Bool
eq_count (num (pos n)) i = eqb n i
eq_count (bool true) i = eqb 1 i
eq_count (bool false) i = eqb 0 i
eq_count _ i = false

module _ (c : Codec) where
  open c use {Text, dumps, loads, strip, is_empty, sha3_hex}

  -- `_raw_lines`
  unfoldable pub raw_lines : List Text → List Text
  raw_lines [] = []
  raw_lines (line ∷ lines) =
      let rest = raw_lines lines in if is_empty (strip line) then rest else strip line ∷ rest

  abbrev pub keep_parsed : Option Json → List Json → List Json
  keep_parsed none rest = rest
  keep_parsed (some v) rest = v ∷ rest

  unfoldable pub parse_lines : List Text → List Json
  parse_lines [] = []
  parse_lines (line ∷ lines) = keep_parsed (loads line) (parse_lines lines)

  -- `_entries`: a malformed line is skipped.
  unfoldable pub entries : List Text → List Json
  unfolding raw_lines parse_lines
  entries lines = parse_lines (raw_lines lines)

  -- `entries[-1]["entry_hash"] if entries else GENESIS_PREV`
  abbrev pub head_of : Option Json → Result Fault Json
  head_of none = ok (str genesis_prev)
  head_of (some e) = subscript "entry_hash" e

  unfoldable pub head : List Text → Result Fault Json
  unfolding entries
  head lines = head_of (last? (entries lines))

  unfoldable pub hash_body : Body → String
  hash_body b = sha3_hex (dumps (body_json b))

  -- `append` at the time `now`: the entry, and the file after it.
  unfoldable pub append : ℤ → Json → List Text → Result Fault (Json × List Text)
  unfolding head hash_body
  append now recorded lines = do
    prev_hash ← head lines
    let body : Body = record {
      prev_hash = prev_hash;
      recorded = recorded;
      seq = num (pos (length (entries lines)));
      timestamp = num now;
    }
    let entry = entry_json body (hash_body body)
    ok (entry, lines ++ dumps entry ∷ [])

  -- The first loop of `verify_chain`: the index of the first malformed line.
  unfoldable pub first_malformed : ℕ → List Text → Option ℕ
  first_malformed i [] = none
  first_malformed i (line ∷ lines) =
      let rest = first_malformed (suc i) lines in
      elim (loads line) [ none ↦ some i | some v ↦ rest ]

  -- One round of the second loop: what is wrong with entry `i` after `prev`, or the next `prev`,
  -- which is the entry's hash, tested equal to the expected one.
  unfoldable pub check_fields : ℕ → String → Option ChainFields → Result Verdict String
  unfolding hash_body
  check_fields i prev none = err (missing_chain_fields i)
  check_fields i prev (some f) =
      let expected = hash_body f.body in
      if not (eq_text f.body.prev_hash prev)
      then err (chain_break i)
      else if not (eq_text f.entry_hash expected)
      then err (hash_mismatch i)
      else if not (eq_count f.body.seq i)
      then err (sequence_gap i)
      else ok expected

  abbrev pub check_entry : ℕ → String → Json → Result Verdict String
  check_entry i prev e = check_fields i prev (chain_fields e)

  unfoldable pub check_entries : ℕ → String → List Json → Result Verdict String
  check_entries i prev [] = ok prev
  check_entries i prev (e ∷ es) = do next ← check_entry i prev e; check_entries (suc i) next es

  abbrev pub report : ℕ → Result Verdict String → Bool × Verdict
  report n (ok last) = (true, chain_intact n)
  report n (err verdict) = (false, verdict)

  abbrev pub after_parse : Option ℕ → Bool × Verdict → Bool × Verdict
  after_parse none checked = checked
  after_parse (some i) checked = (false, corrupted_line i)

  unfoldable pub verify_chain : List Text → Bool × Verdict
  unfolding entries first_malformed check_entries
  verify_chain lines =
      after_parse (first_malformed 0 (raw_lines lines))
        (report (length (entries lines)) (check_entries 0 genesis_prev (entries lines)))
