-- ===== src/Cel/Sql/Operands.antt =====
-- src/repositories/cel_to_sql/sql_providers/base.py: types, casts and values of the operands of a
-- comparison, and the SQL of several fields.
use keep_api_gateway.Prelude.{
  not, ◌||◌, String, ◌⧺◌, Bool, true, false, Option, none, some, List, [], ◌∷◌, map, join, any,
  Result, ok, err, ◌>>=◌, if◌then◌else◌,
}
use keep_api_gateway.Cel.Ast.{
  Value, null, bool, str, LogicalNodeOperator, and, or, ComparisonNodeOperator, lt, le, gt, ge, eq,
  ne, is_in, contains, starts_with, ends_with, UnaryNodeOperator, negation, neg, has, DataType,
  string, array, Property, column, Node, constant, parenthesis, logical, comparison, unary, access,
  multiple_fields, Operand, absent, foreign, one, many, Nodes, nil, cons, type_of,
  from_type_to_data_type, PyType,
}
use keep_api_gateway.Cel.Ast
use keep_api_gateway.Cel.Metadata.{PropertyMetadataInfo}
use keep_api_gateway.Cel.Sql.Dialect.{
  SqlError, not_implemented, attribute_error, index_error, Sql, cast, property_sql, visit_equal,
  visit_not_equal, visit_logical_or, visit_logical_and,
}

abbrev pub is_json : Property → Bool
is_json (column p t) = false
is_json (Ast.json n p t) = true

abbrev pub property_type : Property → Option DataType
property_type (column p t) = t
property_type (Ast.json n p t) = t

-- The types that a comparison reads off its first operand.
abbrev pub operand_type : Node → Option DataType
operand_type (access p) = property_type p
operand_type (multiple_fields ps t) = t
operand_type _ = none

abbrev pub force_cast : Node → Result SqlError Bool
force_cast (access p) = ok (is_json p)
force_cast (multiple_fields [] t) = err index_error
force_cast (multiple_fields (p ∷ ps) t) = ok (is_json p)
force_cast _ = ok false

abbrev pub is_array : Option DataType → Bool
is_array (some array) = true
is_array _ = false

-- `_visit_multiple_fields_node`, which is called without a type to cast to
abbrev pub field_sql : Bool → Property → String
field_sql has_json p =
    if has_json
    then (if is_json p then property_sql p else "CAST(" ⧺ (property_sql p ⧺ " AS TEXT)"))
    else property_sql p

abbrev pub coalesced : List String → String
coalesced (a ∷ []) = a
coalesced args = "COALESCE(" ⧺ (join ", " args ⧺ ")")

unfoldable pub multiple_fields_sql : List Property → String
multiple_fields_sql ps = coalesced (map (field_sql (any is_json ps)) ps)

abbrev pub is_method : ComparisonNodeOperator → Bool
is_method contains = true
is_method starts_with = true
is_method ends_with = true
is_method _ = false

abbrev pub type_of_operand : Operand → Option DataType
type_of_operand (one (constant v)) = from_type_to_data_type (type_of v)
type_of_operand _ = none

abbrev pub is_known : Option DataType → Bool
is_known none = false
is_known (some t) = true

-- `isinstance(value, constant_value_type)`: a `bool` is also an `int`.
abbrev pub is_instance : PyType → PyType → Bool
is_instance Ast.py_str Ast.py_str = true
is_instance Ast.py_int Ast.py_int = true
is_instance Ast.py_bool Ast.py_int = true
is_instance Ast.py_float Ast.py_float = true
is_instance Ast.py_bool Ast.py_bool = true
is_instance Ast.py_none Ast.py_none = true
is_instance Ast.py_datetime Ast.py_datetime = true
is_instance _ _ = false

-- The values of the items after the first: `item.value` of another node is an AttributeError, until an
-- item of another type than the first has ended the test of the types; after that it is passed over.
abbrev pub later_values : PyType → (differs : Bool) → Nodes → Result SqlError (List Value)
later_values t differs nil = ok []
later_values t differs (cons (constant v) ns) = do
  vs ← later_values t (differs || not (is_instance (type_of v) t)) ns
  ok (v ∷ vs)
later_values t true (cons n ns) = later_values t true ns
later_values t false (cons n ns) = err attribute_error

abbrev pub values_of : Nodes → Result SqlError (List Value)
values_of nil = ok []
values_of (cons (constant v) ns) = do vs ← later_values (type_of v) false ns; ok (v ∷ vs)
values_of (cons n ns) = err attribute_error

abbrev pub listed : Operand → Result SqlError (List Value)
listed absent = err attribute_error
listed (foreign t) = err attribute_error
listed (one (constant v)) = ok (v ∷ [])
listed (one n) = err attribute_error
listed (many ns) = values_of ns

abbrev pub is_mixed : PyType → List Value → Bool
is_mixed t [] = false
is_mixed t (v ∷ vs) = if is_instance (type_of v) t then is_mixed t vs else true

abbrev pub is_null : Value → Bool
is_null null = true
is_null _ = false

abbrev pub without_nulls : List Value → List Value
without_nulls [] = []
without_nulls (v ∷ vs) = if is_null v then without_nulls vs else v ∷ without_nulls vs

abbrev pub cast_if : Bool → String → Option DataType → Sql
cast_if true e t = cast e t
cast_if false e t = ok e

-- The first operand of an IN.
abbrev pub in_operand : Node → Bool → Sql → Sql
in_operand (access (Ast.json n p t)) mixed built =
    cast_if (is_known t) (property_sql (Ast.json n p t)) t
in_operand (access (column p t)) mixed built =
    cast_if mixed (property_sql (column p t)) (some string)
in_operand (multiple_fields ps t) mixed built =
    (if any is_json ps
      then cast_if (is_known t) (multiple_fields_sql ps) t
      else ok (multiple_fields_sql ps))
in_operand n mixed built = built

-- `_get_data_type_to_convert`
unfoldable pub type_to_convert : Node → Result SqlError (Option DataType)
type_to_convert (access p) = ok (property_type p)
type_to_convert (multiple_fields ps t) = ok t
type_to_convert (comparison f op s) = type_to_convert f
type_to_convert _ = err not_implemented

abbrev pub compare_sql : ComparisonNodeOperator → String → String → Sql
compare_sql eq f s = ok (visit_equal f s)
compare_sql ne f s = ok (visit_not_equal f s)
compare_sql gt f s = ok (f ⧺ (" > " ⧺ s))
compare_sql ge f s = ok (f ⧺ (" >= " ⧺ s))
compare_sql lt f s = ok (f ⧺ (" < " ⧺ s))
compare_sql le f s = ok (f ⧺ (" <= " ⧺ s))
compare_sql op f s = err not_implemented

abbrev pub mixed_list : List Value → Result SqlError Bool
mixed_list [] = err index_error
mixed_list (v ∷ vs) = ok (is_mixed (type_of v) (v ∷ vs))

abbrev pub cast_first : Bool → Option DataType → Option DataType → String → Sql
cast_first force t u f =
    if force then cast f u else if is_known t then ok f else cast_if (is_known u) f u

abbrev pub truth : Bool → String
truth true = "TRUE"
truth false = "FALSE"

abbrev pub is_found : Option PropertyMetadataInfo → Bool
is_found none = false
is_found (some info) = true

abbrev pub visit_logical_node : LogicalNodeOperator → String → String → String
visit_logical_node and l r = visit_logical_and l r
visit_logical_node or l r = visit_logical_or l r
