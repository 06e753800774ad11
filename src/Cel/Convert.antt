-- ===== src/Cel/Convert.antt =====
-- `convert_to_sql_str_v2` and its helpers in
-- src/repositories/cel_to_sql/sql_providers/base.py: the whole way from a CEL text to SQL. The
-- messages of the exceptions are left out. `parse` stands for the parser of celpy together with
-- `CelToAstConverter`, whose exceptions it returns.
pub mod Fields
pub mod Leaks
pub mod Classified
pub mod Tests
use Prim.Native.Char.{Char, code}
use Prim.Native.String
use keep_api_gateway.Prelude.{
  ℕ, ◌+◌, String, Bool, true, false, ◌==◌, ◌&&◌, ◌||◌, leb, nat_eq, length, Option, none, some,
  List, [], ◌∷◌, Result, ok, err, ◌>>=◌, if◌then◌else◌,
}
use keep_api_gateway.Cel.Ast.{Node, logical, is_boolean_filter_node}
use keep_api_gateway.Cel.Metadata.{PropertyMetadataInfo}
use keep_api_gateway.Cel.Mapper.{MappingError, missing_mapping, not_supported, map_props_in_ast}
use keep_api_gateway.Cel.Sql.Dialect.{SqlError, not_implemented}
use keep_api_gateway.Cel.Sql.{build_sql_filter}

pub data CelDiagnosticCode : Type 0 where
  syntax_error expected_boolean unknown_field unsupported_expression : CelDiagnosticCode

pub record CelToSqlException : Type 0 where
  pub reason : CelDiagnosticCode
  pub line : Option ℕ
  pub column : Option ℕ
  pub end_line : Option ℕ
  pub end_column : Option ℕ

-- What the parser raises: a `CELParseError`, or any other exception; either may know its place.
pub record ParseError : Type 0 where
  pub is_cel_parse_error : Bool
  pub line : Option ℕ
  pub column : Option ℕ

-- An exception of the converter itself, or one that it lets pass.
pub data ConvertError : Type 0 where
  rejected : CelToSqlException → ConvertError
  mapping_leak : MappingError → ConvertError
  building_leak : SqlError → ConvertError

-- The end of the column where the caller gives none.
abbrev pub next_column : Option ℕ → Option ℕ
next_column none = none
next_column (some c) = if nat_eq c 0 then none else some (c + 1)

-- `CelToSqlException(message, code, line, column)`
abbrev pub at_point : CelDiagnosticCode → Option ℕ → Option ℕ → CelToSqlException
at_point reason line column = record {
  reason = reason;
  line = line;
  column = column;
  end_line = line;
  end_column = next_column column;
}

abbrev pub nowhere : CelDiagnosticCode → CelToSqlException
nowhere reason = at_point reason none none

-- The characters at which `splitlines` ends a line.
abbrev pub is_line_break : ℕ → Bool
is_line_break c =
    (leb 10 c && leb c 13)
    || (leb 28 c && leb c 30)
    || nat_eq c 133
    || nat_eq c 8232
    || nat_eq c 8233

abbrev pub push_to_line : Char → List String → List String
push_to_line c [] = String.◌∷◌ c String.[] ∷ []
push_to_line c (l ∷ ls) = String.◌∷◌ c l ∷ ls

-- `splitlines`, after a carriage return or not.
unfoldable pub split_lines : Bool → String → List String
split_lines after_return String.[] = []
split_lines after_return (String.◌∷◌ c s) =
    let rest = split_lines (nat_eq (code c) 13) s in
    if after_return && nat_eq (code c) 10
    then rest
    else if is_line_break (code c)
    then "" ∷ rest
    else push_to_line c rest

abbrev pub last_line : String → List String → String
last_line l [] = l
last_line l (m ∷ ls) = last_line m ls

-- The number of lines and the last of them, of `splitlines() or [""]`
abbrev pub line_count : List String → ℕ
line_count [] = 1
line_count (l ∷ ls) = length (l ∷ ls)

-- `CelToSqlException(message, code, **_whole_expression_span(cel))`
unfoldable pub whole_expression : CelDiagnosticCode → String → CelToSqlException
unfolding split_lines
whole_expression reason cel = record {
  reason = reason;
  line = some 1;
  column = some 1;
  end_line = some (line_count (split_lines false cel));
  end_column = some (String.count (last_line "" (split_lines false cel)) + 1);
}

abbrev pub is_logical : Node → Bool
is_logical (logical l op r) = true
is_logical _ = false

abbrev pub parse_failure : ParseError → CelToSqlException
parse_failure e =
    if e.is_cel_parse_error
    then at_point syntax_error e.line e.column
    else nowhere unsupported_expression

abbrev pub not_boolean : String → Node → CelToSqlException
not_boolean cel n =
    if is_logical n then nowhere expected_boolean else whole_expression expected_boolean cel

-- The three `try` blocks.
abbrev pub parsed : Result ParseError Node → Result ConvertError Node
parsed (ok n) = ok n
parsed (err e) = err (rejected (parse_failure e))

abbrev pub checked : String → Node → Result ConvertError Node
checked cel n = if is_boolean_filter_node n then ok n else err (rejected (not_boolean cel n))

abbrev pub mapped {ℓ} : {A : Type ℓ} → Result MappingError A → Result ConvertError A
mapped (ok a) = ok a
mapped (err (missing_mapping p)) = err (rejected (nowhere unknown_field))
mapped (err (not_supported t)) = err (mapping_leak (not_supported t))

abbrev pub built {ℓ} : {A : Type ℓ} → Result SqlError A → Result ConvertError A
built (ok a) = ok a
built (err not_implemented) = err (rejected (nowhere unsupported_expression))
built (err e) = err (building_leak e)

abbrev pub CelToSqlResult : Type 0
CelToSqlResult = String × List PropertyMetadataInfo

module _ (literal_proc : String → String) (parse_uuid : String → Option String)
    (format_date : String → String)
    (get_property_metadata : List String → Option PropertyMetadataInfo)
    (parse : String → Result ParseError Node) where
  abbrev pub built_filter :
      Option Node × List PropertyMetadataInfo → Result ConvertError CelToSqlResult
  built_filter (none, involved) = ok ("", [])
  built_filter (some n, involved) = do
    sql ← built (build_sql_filter literal_proc parse_uuid format_date get_property_metadata n)
    ok (sql, involved)

  abbrev pub converted : String → Result ConvertError CelToSqlResult
  converted cel = do
    original ← parsed (parse cel)
    query ← checked cel original
    with_mapped_props ← mapped (map_props_in_ast get_property_metadata query)
    built_filter with_mapped_props

  unfoldable pub convert_to_sql_str_v2 : String → Result ConvertError CelToSqlResult
  convert_to_sql_str_v2 cel = if cel == "" then ok ("", []) else converted cel
