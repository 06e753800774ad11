-- ===== src/Cel/Sql/Tests.antt =====
-- Runs of the SQL builder, and its theorem at a filter of alerts.
use Prim.Native.Char.{Char}
use keep_api_gateway.Prelude.{
  String, ◌⧺◌, Bool, true, false, Option, none, some, List, [], ◌∷◌, ◌≡◌, refl, ap, ◌∙◌, ok, join,
}
use keep_api_gateway.Cel.Ast.{
  str, int, null, and, or, eq, is_in, contains, negation, has, integer, string, column, Node,
  constant, logical, comparison, unary, access, one, many, nil, cons,
}
use keep_api_gateway.Cel.Ast
use keep_api_gateway.Cel.Metadata.{PropertyMetadataInfo}
use keep_api_gateway.Cel.Sql.Dialect.{in_quotes, json_extract_as_text, cast, visit_constant_node}
use keep_api_gateway.Cel.Sql.Scan.{place, bare, no_quote, is_quote, IsSaid, next, within, emit}
use keep_api_gateway.Cel.Sql.Alike.{AlikeSql}
use keep_api_gateway.Cel.Sql.Texts.{node_with}
use keep_api_gateway.Cel.Sql.Constants.{IsLiteral}
use keep_api_gateway.Cel.Sql.Injection.{build_sql_filter-AlikeSql}
use keep_api_gateway.Cel.Sql.{build_sql_filter, build_operand}

-- A literal processor that doubles the quotes of a text.
abbrev double : Bool → Char → String → String
double true c s = String.◌∷◌ c (String.◌∷◌ c s)
double false c s = String.◌∷◌ c s

unfoldable doubled : String → String
doubled String.[] = ""
doubled (String.◌∷◌ c s) = double (is_quote c) c (doubled s)

unfoldable quote_literal : String → String
quote_literal s = in_quotes (doubled s)

doubled-IsSaid : (s : String) → IsSaid (doubled s)
unfolding doubled place bare
doubled-IsSaid String.[] = record { stays = refl; hidden = refl }
doubled-IsSaid (String.◌∷◌ c s) = each (is_quote c) c (doubled s) refl (doubled-IsSaid s)
  where
    each : (q : Bool) (c : Char) (t : String) → is_quote c ≡ q → IsSaid t → IsSaid (double q c t)
    each true c t e k = record {
      stays = ap (λ p. place (next (next within p) p) t) e ∙ k.stays;
      hidden =
          ap (λ p. emit within p c (emit (next within p) p c (bare (next (next within p) p) t))) e
          ∙ k.hidden;
    }
    each false c t e k = record {
      stays = ap (λ p. place (next within p) t) e ∙ k.stays;
      hidden = ap (λ p. emit within p c (bare (next within p) t)) e ∙ k.hidden;
    }

quote_literal-IsLiteral : IsLiteral quote_literal
unfolding quote_literal
quote_literal-IsLiteral = record { escape = doubled; quotes = λ s. refl; said = doubled-IsSaid }

abbrev no_uuid : String → Option String
no_uuid s = none

abbrev as_is : String → String
as_is s = s

abbrev no_metadata : List String → Option PropertyMetadataInfo
no_metadata p = none

abbrev name : Node
name = access (column ("alert" ∷ "name" ∷ []) (some string))

abbrev labelled : Node
labelled =
    comparison (access (Ast.json "alert.event" ("labels" ∷ "team" ∷ []) none)) eq
      (one (constant (str "o'neil")))

abbrev found : Node
found = logical (comparison name contains (one (constant (str "disk")))) and (
    logical labelled or
      (comparison name is_in (many (cons (constant (str "a")) (cons (constant null) nil)))))

sql_test : Unit {0}
unfolding build_sql_filter build_operand json_extract_as_text cast visit_constant_node quote_literal
    doubled join Ast.from_type_to_data_type
sql_test = tt
  where
    program :
        build_sql_filter quote_literal no_uuid as_is no_metadata labelled
        ≡ ok "((alert.event -> 'labels') ->> 'team')::TEXT = 'o''neil'"
    program = refl

build_sql_filter-AlikeSql_example :
    AlikeSql (build_sql_filter quote_literal no_uuid as_is no_metadata found) (
      build_sql_filter quote_literal no_uuid as_is no_metadata
        (node_with (λ s. s ⧺ "' OR '1'='1") found))
unfolding no_quote join place
build_sql_filter-AlikeSql_example =
    build_sql_filter-AlikeSql quote_literal quote_literal-IsLiteral no_uuid as_is no_metadata
      (λ s. s ⧺ "' OR '1'='1") found
      ((tt, tt, tt), (((refl, (refl, (refl, tt))), tt, tt), (tt, (tt, (tt, tt)), tt)))
