-- ===== src/Domain/Asset.antt =====
-- `Asset` of satsa/domain/entities.py: the record, its validation, and its two translations to a `dict`.
use sat_sa_with_pqc.Base.{String, Result, ok, ◌>>=◌, List, []}
use sat_sa_with_pqc.Base.Int.{ℤ}
use sat_sa_with_pqc.Json.{
  Items, Dict, nil, end, field, str, num, arr, str_at, str_or, num_or, list_or, str_or_fresh,
  ReadError,
}
use sat_sa_with_pqc.Domain.Base.{Message, text, require, is_set, current_schema_version}

pub record Asset : Type 0 where
  pub entity_id : String
  pub native_id : String
  pub criticality : String
  pub environment : String
  pub active_intervals : Items
  pub control_applicability : Items
  pub id : String
  pub schema_version : ℤ

unfoldable pub validate : Asset → List Message
validate r =
    let errors = require (is_set r.entity_id) (text "entity_id is required") [] in
    require (is_set r.native_id) (text "native_id is required") errors

unfoldable pub to_dict : Asset → Dict
to_dict r = field "active_intervals" (arr r.active_intervals) (
    field "control_applicability" (arr r.control_applicability) (
      field "criticality" (str r.criticality) (
        field "entity_id" (str r.entity_id) (
          field "environment" (str r.environment) (
            field "id" (str r.id) (
              field "native_id" (str r.native_id)
                (field "schema_version" (num r.schema_version) (end))))))))

-- `fresh` is what `new_id` returns.
unfoldable pub from_dict : String → Dict → Result ReadError Asset
from_dict fresh d = do
  entity_id ← str_at "entity_id" d
  native_id ← str_at "native_id" d
  criticality ← str_or "criticality" "unknown" d
  environment ← str_or "environment" "" d
  active_intervals ← list_or "active_intervals" nil d
  control_applicability ← list_or "control_applicability" nil d
  id ← str_or_fresh "id" fresh d
  schema_version ← num_or "schema_version" current_schema_version d
  ok (record {
    entity_id = entity_id;
    native_id = native_id;
    criticality = criticality;
    environment = environment;
    active_intervals = active_intervals;
    control_applicability = control_applicability;
    id = id;
    schema_version = schema_version;
  })
