-- ===== src/Cel/Validate/Tests.antt =====
-- The theorems on the check of filters, at filters of alerts.
use keep_api_gateway.Prelude.{
  String, ◌⧺◌, true, ◌==◌, Option, none, some, List, [], ◌∷◌, All, Result, ok, err, refl, inl, inr,
  if◌then◌else◌,
}
use keep_api_gateway.Cel.Ast.{
  eq, column, Node, comparison, access, constant, str, one, is_boolean_filter_node,
}
use keep_api_gateway.Cel.Metadata.{PropertyMetadataInfo}
use keep_api_gateway.Cel.Convert
use keep_api_gateway.Cel.Convert.{
  ParseError, rejected, parse_failure, convert_to_sql_str_v2, whole_expression, split_lines,
}
use keep_api_gateway.Cel.Convert.Leaks.{text_column}
use keep_api_gateway.Cel.Validate.{
  is_blank, CelValidationResult, diagnostics_from_converter_error, refused,
  validate_alert_filter_cel, validate_cel, ensure_valid_cel,
}
use keep_api_gateway.Cel.Validate.Agree.{IsAnswer, ensure_valid_cel-convert}
use keep_api_gateway.Cel.Validate.Ranges.{IsOrdered}
use keep_api_gateway.Cel.Validate.Answers.{validate_cel-IsOrdered}

abbrev same_literal : String → String
same_literal s = "'" ⧺ (s ⧺ "'")

abbrev no_uuid : String → Option String
no_uuid s = none

abbrev same_date : String → String
same_date s = s

abbrev named : List String → Option PropertyMetadataInfo
named p = some (text_column "name" "alert.name")

abbrev on_disk : Node
on_disk = comparison (access (column ("name" ∷ []) none)) eq (one (constant (str "disk")))

abbrev misplaced : ParseError
misplaced = record { is_cel_parse_error = true; line = some 1; column = some 3 }

abbrev parse : String → Result ParseError Node
parse cel =
    if cel == "name == 'disk'"
    then ok on_disk
    else if cel == "'disk'"
    then ok (constant (str "disk"))
    else err misplaced

ensure_valid_cel-convert_example :
    IsAnswer "'disk'"
      (convert_to_sql_str_v2 same_literal no_uuid same_date named parse "'disk'")
      (ensure_valid_cel same_literal no_uuid same_date named parse (some "'disk'") "alerts")
      (ensure_valid_cel same_literal no_uuid same_date named parse (some "'disk'") "rules")
unfolding is_blank
ensure_valid_cel-convert_example =
    ensure_valid_cel-convert same_literal no_uuid same_date named parse "'disk'" "rules" refl
      (inr (inr (inl refl)))

abbrev answer : CelValidationResult
answer =
    refused (diagnostics_from_converter_error (whole_expression Convert.expected_boolean "'disk'"))

validate_cel-IsOrdered_example : All IsOrdered answer.diagnostics
unfolding validate_cel validate_alert_filter_cel is_blank convert_to_sql_str_v2
    is_boolean_filter_node
validate_cel-IsOrdered_example =
    validate_cel-IsOrdered same_literal no_uuid same_date named parse (some "'disk'") "alerts"
      answer refl
