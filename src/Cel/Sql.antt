-- ===== src/Cel/Sql.antt =====
-- src/repositories/cel_to_sql/sql_providers/base.py, with the methods of postgresql.py where it
-- overrides them: the SQL text of a mapped filter tree.
pub mod Dialect
pub mod Operands
pub mod Scan
pub mod Alike
pub mod Texts
pub mod Constants
pub mod Comparisons
pub mod Unchanged
pub mod Clean
pub mod Membership
pub mod Isolated
pub mod Operations
pub mod Presence
pub mod Injection
pub mod Tests
use keep_api_gateway.Prelude.{
  String, ◌⧺◌, ◌==◌, Bool, true, false, Option, none, some, List, [], ◌∷◌, ◌++◌, map, join, any,
  not, Result, ok, err, ◌>>=◌, if◌then◌else◌,
}
use keep_api_gateway.Cel.Ast.{
  Value, null, bool, str, LogicalNodeOperator, and, or, ComparisonNodeOperator, lt, le, gt, ge, eq,
  ne, is_in, contains, starts_with, ends_with, UnaryNodeOperator, negation, neg, has, DataType,
  string, array, Property, column, Node, constant, parenthesis, logical, comparison, unary, access,
  multiple_fields, Operand, absent, foreign, one, many, Nodes, nil, cons, type_of,
  from_type_to_data_type, PyType,
}
use keep_api_gateway.Cel.Ast
use keep_api_gateway.Cel.Metadata.{PropertyMetadataInfo}
use Dialect.{
  SqlError, not_implemented, value_error, attribute_error, index_error, Sql, json_contains_path,
  cast, property_sql, not_empty, visit_equal, visit_not_equal, visit_logical_or, visit_logical_and,
  visit_constant_node, visit_like, equal_for_array,
}
use Operands.{
  is_json, property_type, operand_type, force_cast, is_array, field_sql, coalesced,
  multiple_fields_sql, is_method, type_of_operand, is_known, values_of, listed, is_instance,
  is_mixed, is_null, without_nulls, cast_if, in_operand, type_to_convert, compare_sql, mixed_list,
  cast_first, truth, is_found, visit_logical_node,
}

module _ (literal_proc : String → String) (parse_uuid : String → Option String)
    (format_date : String → String)
    (get_property_metadata : List String → Option PropertyMetadataInfo) where
  abbrev pub constant_text : Value → Option DataType → String
  constant_text = visit_constant_node literal_proc parse_uuid format_date

  abbrev pub in_list : String → Option DataType → List Value → String
  in_list f t vs = f ⧺ (" in (" ⧺ (join ", " (map (λ v. constant_text v t) vs) ⧺ ")"))

  abbrev pub in_parts : String → Result SqlError (Option DataType) → List Value → Bool → Sql
  in_parts f t [] false = ok (constant_text (bool false) none)
  in_parts f t [] true = ok (visit_equal f "NULL")
  in_parts f t (v ∷ vs) false = do to ← t; ok (in_list f to (v ∷ vs))
  in_parts f t (v ∷ vs) true = do
    to ← t
    ok (visit_logical_or (in_list f to (v ∷ vs)) (visit_equal f "NULL"))

  -- `_visit_in`
  unfoldable pub visit_in : Node → Operand → Sql → Sql
  visit_in f s built = do
    vs ← listed s
    mixed ← mixed_list vs
    first ← in_operand f mixed built
    in_parts first (type_to_convert f) (without_nulls vs) (any is_null vs)

  abbrev pub or_elements : String → Nodes → Property → Sql
  or_elements sql nil p = ok sql
  or_elements sql (cons n ns) p = do
    next ← equal_for_array literal_proc parse_uuid format_date p (one n)
    or_elements (visit_logical_or sql next) ns p

  -- `_visit_in_for_array_datatype`: the equations joined by OR
  unfoldable pub in_for_array : Property → Operand → Sql
  in_for_array p (many nil) = err not_implemented
  in_for_array p (many (cons n ns)) = do
    first ← equal_for_array literal_proc parse_uuid format_date p (one n)
    or_elements first ns p
  in_for_array p s = equal_for_array literal_proc parse_uuid format_date p s

  -- `_visit_constant_node` of the second operand where that is a constant, and its SQL elsewhere
  abbrev pub second_sql : Operand → Option DataType → Sql → Sql
  second_sql (one (constant v)) t built = ok (constant_text v t)
  second_sql s t built = built

  abbrev pub like_sql : ComparisonNodeOperator → String → Operand → Sql
  like_sql contains f s = visit_like literal_proc parse_uuid format_date "%" "%" f s
  like_sql starts_with f s = visit_like literal_proc parse_uuid format_date "" "%" f s
  like_sql _ f s = visit_like literal_proc parse_uuid format_date "%" "" f s

  abbrev pub plain_comparison : Node → ComparisonNodeOperator → Operand → Sql → Sql → Sql
  plain_comparison f op s built_first built_second = do
    force ← force_cast f
    first ← built_first
    second ← second_sql s (operand_type f) built_second
    casted ← cast_first force (operand_type f) (type_of_operand s) first
    compare_sql op casted second

  abbrev pub method_comparison : ComparisonNodeOperator → Operand → Sql → Sql → Sql
  method_comparison op s built_first built_second = do
    first ← built_first
    second ← built_second
    like_sql op first s

  abbrev pub other_comparison : Node → ComparisonNodeOperator → Operand → Sql → Sql → Sql
  other_comparison f is_in s first second = visit_in f s first
  other_comparison f contains s first second = method_comparison contains s first second
  other_comparison f starts_with s first second = method_comparison starts_with s first second
  other_comparison f ends_with s first second = method_comparison ends_with s first second
  other_comparison f op s first second = plain_comparison f op s first second

  abbrev pub array_comparison : Bool → Property → ComparisonNodeOperator → Operand → Sql → Sql → Sql
  array_comparison true p is_in s first second = in_for_array p s
  array_comparison true p eq s first second =
      equal_for_array literal_proc parse_uuid format_date p s
  array_comparison _ p op s first second = other_comparison (access p) op s first second

  -- `_visit_comparison_node`, given the SQL of its operands
  abbrev pub visit_comparison_node : Node → ComparisonNodeOperator → Operand → Sql → Sql → Sql
  visit_comparison_node (access p) op s first second =
      array_comparison (is_array (property_type p)) p op s first second
  visit_comparison_node f op s first second = other_comparison f op s first second

  abbrev pub has_property : Property → String
  has_property (Ast.json n p t) = json_contains_path n p
  has_property (column p t) = truth (is_found (get_property_metadata p))

  abbrev pub or_properties : String → List Property → String
  or_properties sql [] = sql
  or_properties sql (p ∷ ps) = or_properties (visit_logical_or sql (has_property p)) ps

  -- `_visit_unary_has`
  unfoldable pub visit_unary_has : Operand → Sql
  visit_unary_has (one (access p)) = ok (has_property p)
  visit_unary_has (one (multiple_fields [] t)) = err not_implemented
  visit_unary_has (one (multiple_fields (p ∷ ps) t)) = ok (or_properties (has_property p) ps)
  visit_unary_has _ = ok "FALSE"

  abbrev pub visit_unary_node : UnaryNodeOperator → Operand → Sql → Sql
  visit_unary_node negation x built = do sql ← built; ok ("NOT (" ⧺ (sql ⧺ ")"))
  visit_unary_node has x built = visit_unary_has x
  visit_unary_node neg x built = err not_implemented

  -- `_build_sql_filter`. The texts of all but constants and properties are never empty.
  unfoldable mutual
    unfolding visit_in in_for_array visit_unary_has

    pub build_sql_filter : Node → Sql
    build_sql_filter (parenthesis e) = do sql ← build_sql_filter e; ok ("(" ⧺ (sql ⧺ ")"))
    build_sql_filter (logical l op r) = do
      left ← build_sql_filter l
      right ← build_sql_filter r
      ok (visit_logical_node op left right)
    build_sql_filter (comparison f op s) =
        visit_comparison_node f op s (build_sql_filter f) (build_operand s)
    build_sql_filter (unary op x) = visit_unary_node op x (build_operand x)
    build_sql_filter (access p) = not_empty (property_sql p)
    build_sql_filter (constant v) = not_empty (constant_text v none)
    build_sql_filter (multiple_fields ps t) = not_empty (multiple_fields_sql ps)

    pub build_operand : Operand → Sql
    build_operand (one n) = build_sql_filter n
    build_operand absent = err not_implemented
    build_operand (foreign t) = err not_implemented
    build_operand (many ns) = err not_implemented
