-- ===== src/Cel/Convert/Tests.antt =====
-- The theorems on the conversion at filters of alerts.
use keep_api_gateway.Prelude.{
  String, ◌⧺◌, Option, none, some, List, [], ◌∷◌, join, Result, ok, err, ◌≡◌, ◌≢◌, refl,
}
use keep_api_gateway.Cel.Ast.{
  str, eq, contains, string, column, Node, comparison, access, one, DataType,
}
use keep_api_gateway.Cel.Ast
use keep_api_gateway.Cel.Metadata.{PropertyMetadataInfo, simple}
use keep_api_gateway.Cel.Metadata
use keep_api_gateway.Cel.Convert.{ParseError, mapping_leak, convert_to_sql_str_v2}
use keep_api_gateway.Cel.Convert.Classified.{convert-classified}
use keep_api_gateway.Cel.Converter.Trees
use keep_api_gateway.Cel.Converter.Trees.{
  Term, opposite, compared, property, fixed, spelled, meaning,
}
use keep_api_gateway.Cel.Mapper.{not_supported}
use keep_api_gateway.Cel.Convert.Leaks.{text_column, convert-raw_path}

abbrev same_literal : String → String
same_literal s = "'" ⧺ (s ⧺ "'")

abbrev no_uuid : String → Option String
no_uuid s = none

abbrev same_date : String → String
same_date s = s

abbrev named : List String → Option PropertyMetadataInfo
named p = some (text_column "name" "alert.name")

abbrev beside : Ast.ComparisonNodeOperator → String → Node
beside op right =
    comparison (access (column ("name" ∷ []) none)) op
      (one (access (column ("alert" ∷ right ∷ []) none)))

abbrev parse_raw : String → Result ParseError Node
parse_raw cel = ok (beside eq "name OR 1=1")

abbrev parse_method : String → Result ParseError Node
parse_method cel = ok (beside contains "severity")

convert-raw_path_example :
    convert_to_sql_str_v2 same_literal no_uuid same_date named parse_raw
      "name == alert['name OR 1=1']"
    ≡ ok ("alert.name = alert.name OR 1=1", text_column "name" "alert.name" ∷ [])
unfolding join
convert-raw_path_example =
    convert-raw_path same_literal no_uuid same_date named parse_raw "name == alert['name OR 1=1']"
      "name" "alert.name" " = " eq ("name" ∷ []) ("alert" ∷ "name OR 1=1" ∷ []) none none refl refl
      refl refl refl refl refl

abbrev team : PropertyMetadataInfo
team = record {
  field_name = "labels.team";
  field_mappings = Metadata.json "alert.event" ("labels" ∷ "team" ∷ []) ∷ simple "alert.team" ∷ [];
  enum_values = [];
  data_type = some string;
}

abbrev called_disk : Term
called_disk =
    opposite (compared (property (Trees.named "name")) eq (fixed (spelled "'disk'" (str "disk"))))

abbrev parse_called : String → Result ParseError Node
parse_called cel = ok (meaning called_disk)

convert-classified_example :
    convert_to_sql_str_v2 same_literal no_uuid same_date named parse_called "!(name == 'disk')"
    ≢ err (mapping_leak (not_supported "list"))
convert-classified_example =
    convert-classified same_literal no_uuid same_date named parse_called "!(name == 'disk')"
      called_disk (not_supported "list") refl
