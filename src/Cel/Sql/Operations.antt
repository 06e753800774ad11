-- ===== src/Cel/Sql/Operations.antt =====
-- The SQL of comparisons with one text or another.
use keep_api_gateway.Prelude.{String, Option, some, List, refl}
use keep_api_gateway.Cel.Ast.{
  ComparisonNodeOperator, eq, is_in, contains, starts_with, ends_with, DataType, array, Property,
  Node, constant, access, Operand, absent, foreign, one, many,
}
use keep_api_gateway.Cel.Metadata.{PropertyMetadataInfo}
use keep_api_gateway.Cel.Sql.Scan.{no_quote, IsSaid, no_quote-IsSaid}
use keep_api_gateway.Cel.Sql.Alike.{Alike, AlikeSql, bind-AlikeSql}
use keep_api_gateway.Cel.Sql.Dialect.{Sql, visit_like}
use keep_api_gateway.Cel.Sql.Texts.{node_with, operand_with, CleanProperty, CleanSecond}
use keep_api_gateway.Cel.Sql.Constants.{IsLiteral, like-Alike}
use keep_api_gateway.Cel.Sql.Operands.{property_type, operand_type, is_array}
use keep_api_gateway.Cel.Sql.{
  like_sql, method_comparison, other_comparison, array_comparison, visit_comparison_node,
}
use keep_api_gateway.Cel.Sql.Clean.{IsClean, IsCleanOperand}
use keep_api_gateway.Cel.Sql.Membership.{visit_in-AlikeSql}
use keep_api_gateway.Cel.Sql.Isolated.{
  equal_second-AlikeSql, in_for_array-AlikeSql, plain_comparison-AlikeSql,
}

module _ (literal_proc : String → String) (h : IsLiteral literal_proc)
    (parse_uuid : String → Option String) (format_date : String → String)
    (get_property_metadata : List String → Option PropertyMetadataInfo) (f : String → String) where
  visit_like-AlikeSql :
      (before after : String) (x : Operand) (r s : String)
      → IsSaid before
      → IsSaid after
      → IsCleanOperand x
      → Alike r s
      → AlikeSql
          (visit_like literal_proc parse_uuid format_date before after r x)
          (visit_like literal_proc parse_uuid format_date before after s (operand_with f x))
  visit_like-AlikeSql before after (one (constant v)) r s b e c a =
      like-Alike literal_proc h parse_uuid format_date f before after r s v b e c a
  visit_like-AlikeSql before after (one n) r s b e c a = refl
  visit_like-AlikeSql before after absent r s b e c a = refl
  visit_like-AlikeSql before after (foreign t) r s b e c a = refl
  visit_like-AlikeSql before after (many ns) r s b e c a = refl

  like_sql-AlikeSql :
      (op : ComparisonNodeOperator) (x : Operand) (r s : String)
      → IsCleanOperand x
      → Alike r s
      → AlikeSql (like_sql literal_proc parse_uuid format_date get_property_metadata op r x) (
          like_sql literal_proc parse_uuid format_date get_property_metadata op s
            (operand_with f x))
  unfolding no_quote
  like_sql-AlikeSql op x r s c a =
      let percent = no_quote-IsSaid "%" refl in
      let none_said = no_quote-IsSaid "" refl in matched op percent none_said
    where
      matched :
          (op : ComparisonNodeOperator)
          → IsSaid "%"
          → IsSaid ""
          → AlikeSql (like_sql literal_proc parse_uuid format_date get_property_metadata op r x) (
              like_sql literal_proc parse_uuid format_date get_property_metadata op s
                (operand_with f x))
      matched contains k l = visit_like-AlikeSql "%" "%" x r s k k c a
      matched starts_with k l = visit_like-AlikeSql "" "%" x r s l k c a
      matched op k l = visit_like-AlikeSql "%" "" x r s k l c a

  method_comparison-AlikeSql :
      (op : ComparisonNodeOperator) (x : Operand) (r r' s s' : Sql)
      → IsCleanOperand x
      → AlikeSql r r'
      → AlikeSql s s'
      → AlikeSql
          (method_comparison literal_proc parse_uuid format_date get_property_metadata op x r s)
          (method_comparison literal_proc parse_uuid format_date get_property_metadata op
            (operand_with f x)
            r'
            s')
  method_comparison-AlikeSql op x r r' s s' c a b =
      bind-AlikeSql r r' _ _ a
        (λ y z d. bind-AlikeSql s s' _ _ b (λ u v e. like_sql-AlikeSql op x y z c d))

  pub other_comparison-AlikeSql :
      (n : Node) (op : ComparisonNodeOperator) (x : Operand) (r r' s s' : Sql)
      → IsClean n
      → IsCleanOperand x
      → AlikeSql r r'
      → AlikeSql s s'
      → AlikeSql
          (other_comparison literal_proc parse_uuid format_date get_property_metadata n op x r s)
          (other_comparison literal_proc parse_uuid format_date get_property_metadata
            (node_with f n)
            op
            (operand_with f x)
            r'
            s')
  other_comparison-AlikeSql n is_in x r r' s s' k c a b =
      visit_in-AlikeSql literal_proc h parse_uuid format_date get_property_metadata f n x r r' k c a
  other_comparison-AlikeSql n contains x r r' s s' k c a b =
      method_comparison-AlikeSql contains x r r' s s' c a b
  other_comparison-AlikeSql n starts_with x r r' s s' k c a b =
      method_comparison-AlikeSql starts_with x r r' s s' c a b
  other_comparison-AlikeSql n ends_with x r r' s s' k c a b =
      method_comparison-AlikeSql ends_with x r r' s s' c a b
  other_comparison-AlikeSql n op x r r' s s' k c a b =
      plain_comparison-AlikeSql literal_proc h parse_uuid format_date get_property_metadata f n op x
        r r' s s' c a b

  pub access_comparison-AlikeSql :
      (p : Property) (op : ComparisonNodeOperator) (x : Operand) (r r' s s' : Sql)
      → CleanProperty p
      → IsCleanOperand x
      → CleanSecond (property_type p) x
      → AlikeSql r r'
      → AlikeSql s s'
      → AlikeSql
          (array_comparison literal_proc parse_uuid format_date get_property_metadata
            (is_array (property_type p))
            p
            op
            x
            r
            s)
          (array_comparison literal_proc parse_uuid format_date get_property_metadata
            (is_array (property_type p))
            p
            op
            (operand_with f x)
            r'
            s')
  access_comparison-AlikeSql p op x r r' s s' k c d a b = typed (property_type p) op d
    where
      typed :
          (t : Option DataType) (op : ComparisonNodeOperator)
          → CleanSecond t x
          → AlikeSql
              (array_comparison literal_proc parse_uuid format_date get_property_metadata
                (is_array t)
                p
                op
                x
                r
                s)
              (array_comparison literal_proc parse_uuid format_date get_property_metadata
                (is_array t)
                p
                op
                (operand_with f x)
                r'
                s')
      typed (some array) is_in d =
          in_for_array-AlikeSql literal_proc h parse_uuid format_date get_property_metadata f p x k
            d
      typed (some array) eq d =
          equal_second-AlikeSql literal_proc h parse_uuid format_date get_property_metadata f p x k
            d
      typed _ op d = other_comparison-AlikeSql (access p) op x r r' s s' k c a b

  pub visit_comparison_node-AlikeSql :
      (n : Node) (op : ComparisonNodeOperator) (x : Operand) (r r' s s' : Sql)
      → IsClean n
      → IsCleanOperand x
      → CleanSecond (operand_type n) x
      → AlikeSql r r'
      → AlikeSql s s'
      → AlikeSql
          (visit_comparison_node literal_proc parse_uuid format_date get_property_metadata n op x r
            s)
          (visit_comparison_node literal_proc parse_uuid format_date get_property_metadata
            (node_with f n)
            op
            (operand_with f x)
            r'
            s')
  visit_comparison_node-AlikeSql (access p) op x r r' s s' k c d a b =
      access_comparison-AlikeSql p op x r r' s s' k c d a b
  visit_comparison_node-AlikeSql n op x r r' s s' k c d a b =
      other_comparison-AlikeSql n op x r r' s s' k c a b
