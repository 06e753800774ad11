-- ===== src/Cel/Convert/Leaks.antt =====
-- What the conversion lets pass: exceptions of the SQL builder that are not classified, and the path
-- of a field on the right of a comparison.
use keep_api_gateway.Prelude.{
  String, ◌⧺◌, false, ◌==◌, Option, none, some, List, [], ◌∷◌, join, Result, ok, err, ◌≡◌, ◌⊎◌, inl,
  inr, refl,
}
use keep_api_gateway.Cel.Ast.{
  ComparisonNodeOperator, eq, ne, gt, ge, lt, le, is_in, contains, starts_with, ends_with, DataType,
  string, column, Node, comparison, access, one, is_boolean_filter_node,
}
use keep_api_gateway.Cel.Metadata.{PropertyMetadataInfo, simple}
use keep_api_gateway.Cel.Mapper.{
  map_props_in_ast, visit_nodes, visit_unary_node, visit_comparison_node, map_property,
  distinct_fields,
}
use keep_api_gateway.Cel.Mapper.Enums.{modify_comparison}
use keep_api_gateway.Cel.Sql.Dialect.{attribute_error}
use keep_api_gateway.Cel.Sql.{build_sql_filter, build_operand}
use keep_api_gateway.Cel.Convert.{ParseError, building_leak, convert_to_sql_str_v2}

-- A property that is one column of the database, with no enum, whose values are texts.
abbrev pub text_column : (name column : String) → PropertyMetadataInfo
text_column name map_to = record {
  field_name = name;
  field_mappings = simple map_to ∷ [];
  enum_values = [];
  data_type = some string;
}

-- How SQL writes an operator between two columns.
abbrev pub sign_of : ComparisonNodeOperator → Option String
sign_of eq = some " = "
sign_of ne = some " != "
sign_of gt = some " > "
sign_of ge = some " >= "
sign_of lt = some " < "
sign_of le = some " <= "
sign_of _ = none

spelled : {s t : String} → some s ≡ some t → t ≡ s
spelled e = cc

module _ (literal_proc : String → String) (parse_uuid : String → Option String)
    (format_date : String → String)
    (get_property_metadata : List String → Option PropertyMetadataInfo)
    (parse : String → Result ParseError Node) where
  -- Where a filter that is not empty reads as an order or an equality, negated or not, of a text column
  -- whose name is not empty with another field, the path of that field as it is written, unless it is
  -- empty or reads NULL, becomes part of the SQL: it is neither looked up among the fields nor quoted.
  pub convert-raw_path :
      (cel name map_to sign : String) (op : ComparisonNodeOperator) (path right : List String)
      (t u : Option DataType)
      → sign_of op ≡ some sign
      → (cel == "") ≡ false
      → (map_to == "") ≡ false
      → (join "." right == "") ≡ false
      → (join "." right == "NULL") ≡ false
      → get_property_metadata path ≡ some (text_column name map_to)
      → parse cel ≡ ok (comparison (access (column path t)) op (one (access (column right u))))
      → convert_to_sql_str_v2 literal_proc parse_uuid format_date get_property_metadata parse cel
        ≡ ok (map_to ⧺ (sign ⧺ join "." right), text_column name map_to ∷ [])
  unfolding convert_to_sql_str_v2 map_props_in_ast visit_nodes visit_unary_node
      visit_comparison_node map_property modify_comparison build_sql_filter build_operand
      is_boolean_filter_node distinct_fields join
  convert-raw_path cel name map_to sign eq path right t u s h k l m i p =
      rw (h, p, i, k, l, m, spelled s) refl
  convert-raw_path cel name map_to sign ne path right t u s h k l m i p =
      rw (h, p, i, k, l, m, spelled s) refl
  convert-raw_path cel name map_to sign gt path right t u s h k l m i p =
      rw (h, p, i, k, l, spelled s) refl
  convert-raw_path cel name map_to sign ge path right t u s h k l m i p =
      rw (h, p, i, k, l, spelled s) refl
  convert-raw_path cel name map_to sign lt path right t u s h k l m i p =
      rw (h, p, i, k, l, spelled s) refl
  convert-raw_path cel name map_to sign le path right t u s h k l m i p =
      rw (h, p, i, k, l, spelled s) refl
  convert-raw_path cel name map_to sign is_in path right t u s h k l m i p = absurd (cc)
  convert-raw_path cel name map_to sign contains path right t u s h k l m i p = absurd (cc)
  convert-raw_path cel name map_to sign starts_with path right t u s h k l m i p = absurd (cc)
  convert-raw_path cel name map_to sign ends_with path right t u s h k l m i p = absurd (cc)

  -- A text method of a text column with a field for its argument ends in an AttributeError, which no
  -- handler of the conversion classifies.
  convert-method_leak :
      (cel name map_to : String) (op : ComparisonNodeOperator) (path right : List String)
      (t u : Option DataType)
      → (op ≡ contains) ⊎ (op ≡ starts_with) ⊎ (op ≡ ends_with)
      → (cel == "") ≡ false
      → (map_to == "") ≡ false
      → (join "." right == "") ≡ false
      → get_property_metadata path ≡ some (text_column name map_to)
      → parse cel ≡ ok (comparison (access (column path t)) op (one (access (column right u))))
      → convert_to_sql_str_v2 literal_proc parse_uuid format_date get_property_metadata parse cel
        ≡ err (building_leak attribute_error)
  unfolding convert_to_sql_str_v2 map_props_in_ast visit_nodes visit_unary_node
      visit_comparison_node map_property modify_comparison build_sql_filter build_operand
      is_boolean_filter_node distinct_fields join
  convert-method_leak cel name map_to op path right t u (inl o) h k l i p =
      rw (h, p, o, i, k, l) refl
  convert-method_leak cel name map_to op path right t u (inr (inl o)) h k l i p =
      rw (h, p, o, i, k, l) refl
  convert-method_leak cel name map_to op path right t u (inr (inr o)) h k l i p =
      rw (h, p, o, i, k, l) refl
