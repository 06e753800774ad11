-- ===== src/Cel/Sql/Injection.antt =====
-- Texts of a filter stay in the literals of its SQL.
use keep_api_gateway.Prelude.{String, Option, none, List, refl}
use keep_api_gateway.Cel.Ast.{
  UnaryNodeOperator, negation, neg, has, Node, constant, parenthesis, logical, comparison, unary,
  access, multiple_fields, Operand, absent, foreign, one, many,
}
use keep_api_gateway.Cel.Metadata.{PropertyMetadataInfo}
use keep_api_gateway.Cel.Sql.Scan.{place, begins_plain}
use keep_api_gateway.Cel.Sql.Alike.{AlikeSql, bind-AlikeSql, wrap-Alike}
use keep_api_gateway.Cel.Sql.Dialect.{Sql}
use keep_api_gateway.Cel.Sql.Texts.{node_with, operand_with, property_sql-IsAlike}
use keep_api_gateway.Cel.Sql.Constants.{IsLiteral, visit_constant_node-Alike}
use keep_api_gateway.Cel.Sql.Comparisons.{not_empty-AlikeSql, multiple_fields_sql-Alike}
use keep_api_gateway.Cel.Sql.{visit_unary_node, build_sql_filter, build_operand}
use keep_api_gateway.Cel.Sql.Clean.{IsClean, IsCleanOperand}
use keep_api_gateway.Cel.Sql.Operations.{visit_comparison_node-AlikeSql}
use keep_api_gateway.Cel.Sql.Presence.{visit_unary_has-AlikeSql, visit_logical_node-Alike}

module _ (literal_proc : String → String) (h : IsLiteral literal_proc)
    (parse_uuid : String → Option String) (format_date : String → String)
    (get_property_metadata : List String → Option PropertyMetadataInfo) (f : String → String) where
  unary-AlikeSql :
      (op : UnaryNodeOperator) (x : Operand) (r s : Sql)
      → IsCleanOperand x
      → AlikeSql r s
      → AlikeSql
          (visit_unary_node literal_proc parse_uuid format_date get_property_metadata op x r)
          (visit_unary_node literal_proc parse_uuid format_date get_property_metadata op
            (operand_with f x)
            s)
  unfolding place begins_plain
  unary-AlikeSql negation x r s c a =
      bind-AlikeSql r s _ _ a (λ y z b. wrap-Alike "NOT (" ")" y z refl (refl, refl) b)
  unary-AlikeSql has x r s c a =
      visit_unary_has-AlikeSql literal_proc h parse_uuid format_date get_property_metadata f x c
  unary-AlikeSql neg x r s c a = refl

  mutual
    unfolding build_sql_filter build_operand place begins_plain

    build_node-AlikeSql :
        (n : Node)
        → IsClean n
        → AlikeSql (build_sql_filter literal_proc parse_uuid format_date get_property_metadata n) (
            build_sql_filter literal_proc parse_uuid format_date get_property_metadata
              (node_with f n))
    build_node-AlikeSql (constant v) c =
        not_empty-AlikeSql _ _
          (visit_constant_node-Alike literal_proc h parse_uuid format_date f v none c)
    build_node-AlikeSql (parenthesis e) c =
        bind-AlikeSql _ _ _ _ (build_node-AlikeSql e c)
          (λ y z b. wrap-Alike "(" ")" y z refl (refl, refl) b)
    build_node-AlikeSql (logical l op r) c =
        bind-AlikeSql _ _ _ _ (build_node-AlikeSql l c.0) (λ y z b.
          bind-AlikeSql _ _ _ _ (build_node-AlikeSql r c.1) (λ u v d.
            visit_logical_node-Alike literal_proc h parse_uuid format_date get_property_metadata f
              op y z u v b d))
    build_node-AlikeSql (comparison n op x) c =
        visit_comparison_node-AlikeSql literal_proc h parse_uuid format_date get_property_metadata f
          n op x _ _ _ _ c.0 c.1 c.2 (build_node-AlikeSql n c.0) (build_operand-AlikeSql x c.1)
    build_node-AlikeSql (unary op x) c = unary-AlikeSql op x _ _ c (build_operand-AlikeSql x c)
    build_node-AlikeSql (access p) c = not_empty-AlikeSql _ _ (property_sql-IsAlike p c)
    build_node-AlikeSql (multiple_fields ps t) c =
        not_empty-AlikeSql _ _ (multiple_fields_sql-Alike ps c)

    build_operand-AlikeSql :
        (x : Operand)
        → IsCleanOperand x
        → AlikeSql (build_operand literal_proc parse_uuid format_date get_property_metadata x) (
            build_operand literal_proc parse_uuid format_date get_property_metadata
              (operand_with f x))
    build_operand-AlikeSql (one n) c = build_node-AlikeSql n c
    build_operand-AlikeSql absent c = refl
    build_operand-AlikeSql (foreign t) c = refl
    build_operand-AlikeSql (many ns) c = refl

-- Whatever other texts stand in a filter in the place of its own, it is refused for the same reason
-- or its SQL is the same outside of literals, and either SQL ends outside of a literal. `literal_proc`
-- puts what a text says between quotes, no number, date or path into JSON is spelled with a quote, no
-- date is compared with an array, and every column ends outside of a literal.
pub build_sql_filter-AlikeSql :
    (literal_proc : String → String)
    → IsLiteral literal_proc
    → (parse_uuid : String → Option String) (format_date : String → String)
      (get_property_metadata : List String → Option PropertyMetadataInfo) (f : String → String)
      (n : Node)
    → IsClean n
    → AlikeSql
        (build_sql_filter literal_proc parse_uuid format_date get_property_metadata n)
        (build_sql_filter literal_proc parse_uuid format_date get_property_metadata (node_with f n))
build_sql_filter-AlikeSql literal_proc h parse_uuid format_date get_property_metadata f n c =
    build_node-AlikeSql literal_proc h parse_uuid format_date get_property_metadata f n c
