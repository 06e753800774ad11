-- ===== src/Cel/Metadata.antt =====
-- src/repositories/cel_to_sql/properties_metadata.py: what is known of a queried property.
pub mod Paths
pub mod Roundtrip
pub mod Tests
use keep_api_gateway.Prelude.{String, Option, List}
use keep_api_gateway.Cel.Ast.{DataType}

-- `SimpleFieldMapping` and `JsonFieldMapping`
pub data FieldMapping : Type 0 where
  simple : (map_to : String) → FieldMapping
  json : (json_prop : String) → (prop_in_json : List String) → FieldMapping

pub record PropertyMetadataInfo : Type 0 where
  pub field_name : String
  pub field_mappings : List FieldMapping
  pub enum_values : List String
  pub data_type : Option DataType
