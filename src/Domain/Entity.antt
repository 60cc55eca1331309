-- ===== src/Domain/Entity.antt =====
-- `Entity` of satsa/domain/entities.py: the record, its validation, and its two translations to a `dict`.
use sat_sa_with_pqc.Base.{String, Result, ok, ◌>>=◌, List, []}
use sat_sa_with_pqc.Base.Int.{ℤ}
use sat_sa_with_pqc.Json.{
  Dict, end, field, str, num, obj, str_at, str_or, num_or, dict_or, str_or_fresh, ReadError,
}
use sat_sa_with_pqc.Domain.Base.{Message, text, require, is_set, current_schema_version}

pub record Entity : Type 0 where
  pub display_name : String
  pub sector : String
  pub environment_class : String
  pub cohort_attributes : Dict
  pub access_scope : String
  pub id : String
  pub schema_version : ℤ

unfoldable pub validate : Entity → List Message
validate r = require (is_set r.display_name) (text "display_name is required") []

unfoldable pub to_dict : Entity → Dict
to_dict r = field "access_scope" (str r.access_scope) (
    field "cohort_attributes" (obj r.cohort_attributes) (
      field "display_name" (str r.display_name) (
        field "environment_class" (str r.environment_class) (
          field "id" (str r.id) (
            field "schema_version" (num r.schema_version) (field "sector" (str r.sector) (end)))))))

-- `fresh` is what `new_id` returns.
unfoldable pub from_dict : String → Dict → Result ReadError Entity
from_dict fresh d = do
  display_name ← str_at "display_name" d
  sector ← str_or "sector" "" d
  environment_class ← str_or "environment_class" "" d
  cohort_attributes ← dict_or "cohort_attributes" end d
  access_scope ← str_or "access_scope" "" d
  id ← str_or_fresh "id" fresh d
  schema_version ← num_or "schema_version" current_schema_version d
  ok (record {
    display_name = display_name;
    sector = sector;
    environment_class = environment_class;
    cohort_attributes = cohort_attributes;
    access_scope = access_scope;
    id = id;
    schema_version = schema_version;
  })
