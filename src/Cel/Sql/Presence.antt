-- ===== src/Cel/Sql/Presence.antt =====
-- The SQL of tests of presence and of logical operators with one text or another.
use keep_api_gateway.Prelude.{String, Bool, true, false, Option, List, [], ◌∷◌, refl, All}
use keep_api_gateway.Cel.Ast.{
  Value, null, bool, str, int, float, datetime, LogicalNodeOperator, and, or,
  ComparisonNodeOperator, lt, le, gt, ge, eq, ne, is_in, contains, starts_with, ends_with,
  UnaryNodeOperator, negation, neg, has, DataType, string, uuid, integer, float_type, datetime_type,
  boolean, object, array, null_type, Property, column, Node, constant, parenthesis, logical,
  comparison, unary, access, multiple_fields, Operand, absent, foreign, one, many, Nodes, nil, cons,
  type_of,
}
use keep_api_gateway.Cel.Ast
use keep_api_gateway.Cel.Metadata.{PropertyMetadataInfo}
use keep_api_gateway.Cel.Sql.Scan.{place, begins_plain, no_quote}
use keep_api_gateway.Cel.Sql.Alike.{Alike, AlikeSql, no_quote-Alike, pair-Alike}
use keep_api_gateway.Cel.Sql.Texts.{operand_with, CleanProperty, contains_path-IsAlike}
use keep_api_gateway.Cel.Sql.Constants.{IsLiteral}
use keep_api_gateway.Cel.Sql.Operands.{truth, is_found, visit_logical_node}
use keep_api_gateway.Cel.Sql.{has_property, or_properties, visit_unary_has}
use keep_api_gateway.Cel.Sql.Clean.{IsCleanOperand}

module _ (literal_proc : String → String) (h : IsLiteral literal_proc)
    (parse_uuid : String → Option String) (format_date : String → String)
    (get_property_metadata : List String → Option PropertyMetadataInfo) (f : String → String) where
  truth-Alike : (b : Bool) → Alike (truth b) (truth b)
  unfolding no_quote
  truth-Alike true = no_quote-Alike "TRUE" refl
  truth-Alike false = no_quote-Alike "FALSE" refl

  has_property-Alike :
      (p : Property)
      → CleanProperty p
      → Alike
          (has_property literal_proc parse_uuid format_date get_property_metadata p)
          (has_property literal_proc parse_uuid format_date get_property_metadata p)
  has_property-Alike (Ast.json n p t) c = contains_path-IsAlike n p c
  has_property-Alike (column p t) c = truth-Alike (is_found (get_property_metadata p))

  or_properties-Alike :
      (ps : List Property) (r s : String)
      → All CleanProperty ps
      → Alike r s
      → Alike
          (or_properties literal_proc parse_uuid format_date get_property_metadata r ps)
          (or_properties literal_proc parse_uuid format_date get_property_metadata s ps)
  unfolding place begins_plain
  or_properties-Alike [] r s c a = a
  or_properties-Alike (p ∷ ps) r s c a = or_properties-Alike ps _ _ c.1 (
      pair-Alike "(" " OR " ")" _ _ _ _ refl (refl, refl) (refl, refl) a (has_property-Alike p c.0))

  pub visit_unary_has-AlikeSql :
      (x : Operand)
      → IsCleanOperand x
      → AlikeSql (visit_unary_has literal_proc parse_uuid format_date get_property_metadata x) (
          visit_unary_has literal_proc parse_uuid format_date get_property_metadata
            (operand_with f x))
  unfolding visit_unary_has no_quote
  visit_unary_has-AlikeSql (one (access p)) c = has_property-Alike p c
  visit_unary_has-AlikeSql (one (multiple_fields [] t)) c = refl
  visit_unary_has-AlikeSql (one (multiple_fields (p ∷ ps) t)) c =
      or_properties-Alike ps _ _ c.1 (has_property-Alike p c.0)
  visit_unary_has-AlikeSql (one n) c = no_quote-Alike "FALSE" refl
  visit_unary_has-AlikeSql absent c = no_quote-Alike "FALSE" refl
  visit_unary_has-AlikeSql (foreign t) c = no_quote-Alike "FALSE" refl
  visit_unary_has-AlikeSql (many ns) c = no_quote-Alike "FALSE" refl

  pub visit_logical_node-Alike :
      (op : LogicalNodeOperator) (l l' r r' : String)
      → Alike l l'
      → Alike r r'
      → Alike (visit_logical_node op l r) (visit_logical_node op l' r')
  unfolding place begins_plain
  visit_logical_node-Alike and l l' r r' a b =
      pair-Alike "(" " AND " ")" _ _ _ _ refl (refl, refl) (refl, refl) a b
  visit_logical_node-Alike or l l' r r' a b =
      pair-Alike "(" " OR " ")" _ _ _ _ refl (refl, refl) (refl, refl) a b
