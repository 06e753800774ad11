-- ===== src/Cel/Validate.antt =====
-- src/services/cel_validation.py: which CEL texts are usable filters, and what is said of the others.
-- The messages of the diagnostics are left out.
pub mod Agree
pub mod Lines
pub mod Ranges
pub mod Answers
pub mod Tests
use Prim.Native.Char.{code}
use Prim.Native.String
use keep_api_gateway.Prelude.{
  ℕ, ◌+◌, String, Bool, true, false, ◌==◌, ◌&&◌, ◌||◌, leb, nat_eq, length, split, Option, none,
  some, List, [], ◌∷◌, Result, ok, err, ◌>>=◌, if◌then◌else◌,
}
use keep_api_gateway.Cel.Ast.{Node, is_boolean_filter_node}
use keep_api_gateway.Cel.Metadata.{PropertyMetadataInfo}
use keep_api_gateway.Cel.Convert.{
  CelDiagnosticCode, syntax_error, expected_boolean, unsupported_expression, CelToSqlException,
  ParseError, ConvertError, rejected, is_logical, last_line, CelToSqlResult, convert_to_sql_str_v2,
}

pub record CelDiagnosticRange : Type 0 where
  pub start_line : ℕ
  pub start_column : ℕ
  pub end_line : ℕ
  pub end_column : ℕ

pub record CelDiagnostic : Type 0 where
  pub reason : CelDiagnosticCode
  pub range : Option CelDiagnosticRange

pub record CelValidationResult : Type 0 where
  pub valid : Bool
  pub diagnostics : List CelDiagnostic

abbrev pub accepted : CelValidationResult
accepted = record { valid = true; diagnostics = [] }

abbrev pub refused : List CelDiagnostic → CelValidationResult
refused ds = record { valid = false; diagnostics = ds }

-- The characters that `strip` removes.
abbrev pub is_space : ℕ → Bool
is_space c =
    (leb 9 c && leb c 13)
    || (leb 28 c && leb c 32)
    || nat_eq c 133
    || nat_eq c 160
    || nat_eq c 5760
    || (leb 8192 c && leb c 8202)
    || nat_eq c 8232
    || nat_eq c 8233
    || nat_eq c 8239
    || nat_eq c 8287
    || nat_eq c 12288

-- `not cel or not cel.strip()`
unfoldable pub is_blank : String → Bool
is_blank String.[] = true
is_blank (String.◌∷◌ c s) = is_space (code c) && is_blank s

-- `_whole_expression_range`
unfoldable pub whole_expression_range : String → CelDiagnosticRange
unfolding split
whole_expression_range cel = record {
  start_line = 1;
  start_column = 1;
  end_line = length (split b'\n' cel);
  end_column = String.count (last_line "" (split b'\n' cel)) + 1;
}

-- `_point_range`
abbrev pub point_range : Option ℕ → Option ℕ → Option CelDiagnosticRange
point_range (some line) (some column) =
    some (record {
      start_line = line;
      start_column = column;
      end_line = line;
      end_column = column + 1;
    })
point_range _ _ = none

-- `value or other`, of a number that may be missing
abbrev pub or_else : Option ℕ → ℕ → ℕ
or_else none other = other
or_else (some n) other = if nat_eq n 0 then other else n

abbrev pub range_between : Option ℕ → Option ℕ → Option ℕ → Option ℕ → Option CelDiagnosticRange
range_between (some line) (some column) end_line end_column = some (record {
  start_line = line;
  start_column = column;
  end_line = or_else end_line line;
  end_column = or_else end_column (column + 1);
})
range_between _ _ end_line end_column = none

-- `_range_from_converter_error` and `_diagnostics_from_converter_error`
abbrev pub range_from_converter_error : CelToSqlException → Option CelDiagnosticRange
range_from_converter_error e = range_between e.line e.column e.end_line e.end_column

abbrev pub diagnostics_from_converter_error : CelToSqlException → List CelDiagnostic
diagnostics_from_converter_error e =
    record { reason = e.reason; range = range_from_converter_error e } ∷ []

abbrev pub verdict : Result ConvertError CelToSqlResult → Result ConvertError CelValidationResult
verdict (ok result) = ok accepted
verdict (err (rejected e)) = ok (refused (diagnostics_from_converter_error e))
verdict (err leak) = err leak

-- The answer to what the parser raises, and to what is no test.
abbrev pub is_some : Option ℕ → Bool
is_some none = false
is_some (some n) = true

abbrev pub parse_diagnostic : ParseError → CelDiagnostic
parse_diagnostic e = record {
  reason = if is_some e.line || is_some e.column then syntax_error else unsupported_expression;
  range = point_range e.line e.column;
}

abbrev pub boolean_diagnostic : String → Node → CelDiagnostic
boolean_diagnostic cel n = record {
  reason = expected_boolean;
  range = if is_logical n then none else some (whole_expression_range cel);
}

abbrev pub event_verdict : String → Result ParseError Node → CelValidationResult
event_verdict cel (err e) = refused (parse_diagnostic e ∷ [])
event_verdict cel (ok n) =
    if is_boolean_filter_node n then accepted else refused (boolean_diagnostic cel n ∷ [])

pub data ValidationError : Type 0 where
  -- `NotImplementedError` for a context that is not known
  no_validation : ValidationError
  -- an exception that the converter lets pass
  leaked : ConvertError → ValidationError
  -- `InvalidCelException`
  invalid_cel : List CelDiagnostic → (cel : String) → ValidationError

abbrev pub or_empty : Option String → String
or_empty none = ""
or_empty (some cel) = cel

abbrev pub lift_leak :
    Result ConvertError CelValidationResult → Result ValidationError CelValidationResult
lift_leak (ok r) = ok r
lift_leak (err e) = err (leaked e)

abbrev pub raise_invalid : String → CelValidationResult → Result ValidationError (Unit {0})
raise_invalid cel r = if r.valid then ok tt else err (invalid_cel r.diagnostics cel)

-- `HTTPException(status_code, detail)` of `invalid_cel_http_exception`
pub record HttpException : Type 0 where
  pub status_code : ℕ
  pub code : String
  pub diagnostics : List CelDiagnostic

abbrev pub invalid_cel_http_exception : List CelDiagnostic → HttpException
invalid_cel_http_exception ds = record { status_code = 400; code = "INVALID_CEL"; diagnostics = ds }

abbrev pub http_exception_from_converter_error : CelToSqlException → HttpException
http_exception_from_converter_error e =
    invalid_cel_http_exception (diagnostics_from_converter_error e)

module _ (literal_proc : String → String) (parse_uuid : String → Option String)
    (format_date : String → String)
    (get_property_metadata : List String → Option PropertyMetadataInfo)
    (parse : String → Result ParseError Node) where
  abbrev pub checked_filter : String → Result ConvertError CelValidationResult
  checked_filter cel =
      if is_blank cel
      then ok accepted
      else verdict (
          convert_to_sql_str_v2 literal_proc parse_uuid format_date get_property_metadata parse cel)

  unfoldable pub validate_alert_filter_cel : Option String → Result ConvertError CelValidationResult
  unfolding is_blank
  validate_alert_filter_cel cel = checked_filter (or_empty cel)

  abbrev pub checked_event_filter : String → CelValidationResult
  checked_event_filter cel = if is_blank cel then accepted else event_verdict cel (parse cel)

  unfoldable pub validate_event_filter_cel : Option String → CelValidationResult
  unfolding is_blank whole_expression_range
  validate_event_filter_cel cel = checked_event_filter (or_empty cel)

  -- The contexts that `_VALIDATORS` sends to the check of events.
  abbrev pub is_event_context : String → Bool
  is_event_context context =
      context == "maintenance"
      || context == "extraction"
      || context == "rules"
      || context == "workflows"

  unfoldable pub validate_cel : Option String → String → Result ValidationError CelValidationResult
  unfolding validate_alert_filter_cel validate_event_filter_cel
  validate_cel cel context =
      if context == "alerts"
      then lift_leak (validate_alert_filter_cel cel)
      else if is_event_context context
      then ok (validate_event_filter_cel cel)
      else err no_validation

  -- `ensure_valid_cel`
  unfoldable pub ensure_valid_cel : Option String → String → Result ValidationError (Unit {0})
  unfolding validate_cel
  ensure_valid_cel cel context = do
    result ← validate_cel cel context
    raise_invalid (or_empty cel) result
