-- ===== src/Cel/Validate/Answers.antt =====
-- Where the diagnostics of a check point to.
use keep_api_gateway.Prelude.{
  String, Bool, true, false, ◌==◌, Option, none, some, List, [], All, Result, ok, err, ◌≡◌, ap,
  refl, subst, if◌then◌else◌,
}
use keep_api_gateway.Cel.Ast.{Node}
use keep_api_gateway.Cel.Metadata.{PropertyMetadataInfo}
use keep_api_gateway.Cel.Mapper.{map_props_in_ast}
use keep_api_gateway.Cel.Sql.{build_sql_filter}
use keep_api_gateway.Cel.Convert
use keep_api_gateway.Cel.Convert.{
  ParseError, ConvertError, rejected, mapping_leak, building_leak, CelToSqlException,
  CelDiagnosticCode, expected_boolean, CelToSqlResult, at_point, nowhere, next_column,
  whole_expression, line_count, split_lines, parse_failure, is_logical, not_boolean, mapped, built,
  built_filter, converted, convert_to_sql_str_v2,
}
use keep_api_gateway.Cel.Validate
use keep_api_gateway.Cel.Validate.{
  CelDiagnosticRange, CelDiagnostic, CelValidationResult, ValidationError, accepted, refused,
  or_else, range_from_converter_error, diagnostics_from_converter_error, point_range,
  whole_expression_range, verdict, is_blank, or_empty, event_verdict, validate_alert_filter_cel,
  validate_event_filter_cel, validate_cel,
}
use keep_api_gateway.Cel.Validate.Ranges.{
  IsOrdered, IsOrderedResult, bind-IsOrdered, parsed-IsOrdered, checked-IsOrdered, mapped-IsOrdered,
  built-IsOrdered, event_verdict-IsOrdered,
}

abbrev result_of : Result ConvertError CelValidationResult → CelValidationResult
result_of (ok r) = r
result_of (err e) = accepted

abbrev answer_of : Result ValidationError CelValidationResult → CelValidationResult
answer_of (ok r) = r
answer_of (err e) = accepted

module _ (literal_proc : String → String) (parse_uuid : String → Option String)
    (format_date : String → String)
    (get_property_metadata : List String → Option PropertyMetadataInfo)
    (parse : String → Result ParseError Node) where
  convert-IsOrdered :
      (cel : String)
      → is_blank cel ≡ false
      → IsOrderedResult (
          convert_to_sql_str_v2 literal_proc parse_uuid format_date get_property_metadata parse cel)
  unfolding convert_to_sql_str_v2
  convert-IsOrdered cel filled = by_test (cel == "")
    where
      built_result :
          (m : Option Node × List PropertyMetadataInfo)
          → IsOrderedResult
              (built_filter literal_proc parse_uuid format_date get_property_metadata parse m)
      built_result (none, involved) = tt
      built_result (some n, involved) =
          let sql = build_sql_filter literal_proc parse_uuid format_date get_property_metadata n in
          bind-IsOrdered (built sql) _ (built-IsOrdered sql) (λ sql. tt)

      by_test :
          (b : Bool)
          → IsOrderedResult (
              if b
              then ok ("", [])
              else converted literal_proc parse_uuid format_date get_property_metadata parse cel)
      by_test true = tt
      by_test false =
          bind-IsOrdered (Convert.parsed (parse cel)) _ (parsed-IsOrdered (parse cel)) (λ n.
            bind-IsOrdered (Convert.checked cel n) _ (checked-IsOrdered cel n filled) (λ query.
              bind-IsOrdered (mapped (map_props_in_ast get_property_metadata query)) _
                (mapped-IsOrdered _) built_result))

  verdict-IsOrdered :
      (c : Result ConvertError CelToSqlResult) (r : CelValidationResult)
      → IsOrderedResult c
      → verdict c ≡ ok r
      → All IsOrdered r.diagnostics
  verdict-IsOrdered (ok result) r h e = subst (λ x. All IsOrdered x.diagnostics) (ap result_of e) tt
  verdict-IsOrdered (err (rejected x)) r h e =
      subst (λ x. All IsOrdered x.diagnostics) (ap result_of e) (h, tt)
  verdict-IsOrdered (err (mapping_leak x)) r h e = absurd (cc)
  verdict-IsOrdered (err (building_leak x)) r h e = absurd (cc)

  -- Every range that the check of a filter answers with, in any context, ends after it starts: as the
  -- end is not part of the range, it holds a character at least.
  pub validate_cel-IsOrdered :
      (cel : Option String) (context : String) (r : CelValidationResult)
      → validate_cel literal_proc parse_uuid format_date get_property_metadata parse cel context
        ≡ ok r
      → All IsOrdered r.diagnostics
  unfolding validate_cel validate_alert_filter_cel validate_event_filter_cel
  validate_cel-IsOrdered cel context r h =
      by_context (context == "alerts")
        (Validate.is_event_context literal_proc parse_uuid format_date get_property_metadata parse
          context)
        (is_blank (or_empty cel)) refl h
    where
      filter_answer : Bool → Result ConvertError CelValidationResult
      filter_answer b =
          if b
          then ok accepted
          else verdict (
              convert_to_sql_str_v2 literal_proc parse_uuid format_date get_property_metadata parse
                (or_empty cel))

      event_answer : Bool → CelValidationResult
      event_answer b = if b then accepted else event_verdict (or_empty cel) (parse (or_empty cel))

      lifted :
          (a : Result ConvertError CelValidationResult) → Validate.lift_leak a ≡ ok r → a ≡ ok r
      lifted (ok x) e = cc
      lifted (err x) e = absurd (cc)

      by_context :
          (alerts events b : Bool)
          → is_blank (or_empty cel) ≡ b
          → (if alerts
              then Validate.lift_leak (filter_answer b)
              else if events
              then ok (event_answer b)
              else err Validate.no_validation)
            ≡ ok r
          → All IsOrdered r.diagnostics
      by_context true events true t e =
          subst (λ x. All IsOrdered x.diagnostics) (ap result_of (lifted (ok accepted) e)) tt
      by_context true events false t e =
          verdict-IsOrdered _ r (convert-IsOrdered (or_empty cel) t)
            (lifted (filter_answer false) e)
      by_context false true true t e = subst (λ x. All IsOrdered x.diagnostics) (ap answer_of e) tt
      by_context false true false t e =
          subst (λ x. All IsOrdered x.diagnostics) (ap answer_of e)
            (event_verdict-IsOrdered (or_empty cel) (parse (or_empty cel)) t)
      by_context false false b t e = absurd (cc)
