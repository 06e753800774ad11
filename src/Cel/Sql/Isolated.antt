-- ===== src/Cel/Sql/Isolated.antt =====
-- The SQL of a filter with one text or another.
use keep_api_gateway.Prelude.{String, Bool, Option, some, List, ◌≡◌, refl, Result, ok, err, ◌>>=◌}
use keep_api_gateway.Cel.Ast.{
  str, ComparisonNodeOperator, DataType, array, Property, Node, constant, access, Operand, absent,
  foreign, one, many, Nodes, nil, cons,
}
use keep_api_gateway.Cel.Metadata.{PropertyMetadataInfo}
use keep_api_gateway.Cel.Sql.Scan.{place, begins_plain}
use keep_api_gateway.Cel.Sql.Alike.{Alike, AlikeSql, bind-AlikeSql, pair-Alike}
use keep_api_gateway.Cel.Sql.Dialect.{Sql, SqlError, equal_for_array}
use keep_api_gateway.Cel.Sql.Texts.{
  node_with, operand_with, nodes_with, CleanProperty, CleanElements, CleanSecond,
}
use keep_api_gateway.Cel.Sql.Constants.{
  IsLiteral, visit_constant_node-Alike, equal_for_array-AlikeSql,
}
use keep_api_gateway.Cel.Sql.Comparisons.{compare_sql-AlikeSql, cast_first-AlikeSql}
use keep_api_gateway.Cel.Sql.Unchanged.{operand_type-with, force_cast-with}
use keep_api_gateway.Cel.Sql.Operands.{
  operand_type, force_cast, cast_first, compare_sql, type_of_operand,
}
use keep_api_gateway.Cel.Sql.{or_elements, in_for_array, second_sql, plain_comparison}
use keep_api_gateway.Cel.Sql.Clean.{IsCleanOperand}

module _ (literal_proc : String → String) (h : IsLiteral literal_proc)
    (parse_uuid : String → Option String) (format_date : String → String)
    (get_property_metadata : List String → Option PropertyMetadataInfo) (f : String → String) where
  abbrev equal_of : Property → Operand → Sql
  equal_of = equal_for_array literal_proc parse_uuid format_date

  -- The elements of an array.
  equal_of-AlikeSql :
      (p : Property) (n : Node)
      → CleanProperty p
      → CleanElements (some array) (cons n nil)
      → AlikeSql (equal_of p (one n)) (equal_of p (one (node_with f n)))
  equal_of-AlikeSql p (constant v) c d =
      equal_for_array-AlikeSql literal_proc h parse_uuid format_date f p v c d.0
  equal_of-AlikeSql p (access q) c d = refl
  equal_of-AlikeSql p _ c d = refl

  abbrev or_elements_of : String → Nodes → Property → Sql
  or_elements_of = or_elements literal_proc parse_uuid format_date get_property_metadata

  first_clean :
      (n : Node) (ns : Nodes)
      → CleanElements (some array) (cons n ns)
      → CleanElements (some array) (cons n nil) × CleanElements (some array) ns
  first_clean (constant v) ns d = ((d.0, tt), d.1)
  first_clean (access p) ns d = (tt, d)
  first_clean _ ns d = (tt, d)

  or_elements-AlikeSql :
      (p : Property) (ns : Nodes) (r s : String)
      → CleanProperty p
      → CleanElements (some array) ns
      → Alike r s
      → AlikeSql (or_elements_of r ns p) (or_elements_of s (nodes_with f ns) p)
  unfolding place begins_plain
  or_elements-AlikeSql p nil r s c d a = a
  or_elements-AlikeSql p (cons n ns) r s c d a =
      let k = first_clean n ns d in
      bind-AlikeSql (equal_of p (one n)) (equal_of p (one (node_with f n))) _ _
        (equal_of-AlikeSql p n c k.0)
        (λ x y b.
          or_elements-AlikeSql p ns _ _ c k.1
            (pair-Alike "(" " OR " ")" _ _ _ _ refl (refl, refl) (refl, refl) a b))

  pub in_for_array-AlikeSql :
      (p : Property) (x : Operand)
      → CleanProperty p
      → CleanSecond (some array) x
      → AlikeSql (in_for_array literal_proc parse_uuid format_date get_property_metadata p x) (
          in_for_array literal_proc parse_uuid format_date get_property_metadata p
            (operand_with f x))
  unfolding in_for_array
  in_for_array-AlikeSql p absent c d = refl
  in_for_array-AlikeSql p (foreign t) c d = refl
  in_for_array-AlikeSql p (one n) c d = equal_of-AlikeSql p n c d
  in_for_array-AlikeSql p (many nil) c d = refl
  in_for_array-AlikeSql p (many (cons n ns)) c d =
      let k = first_clean n ns d in
      bind-AlikeSql (equal_of p (one n)) (equal_of p (one (node_with f n))) _ _
        (equal_of-AlikeSql p n c k.0) (λ x y b. or_elements-AlikeSql p ns x y c k.1 b)

  pub equal_second-AlikeSql :
      (p : Property) (x : Operand)
      → CleanProperty p
      → CleanSecond (some array) x
      → AlikeSql (equal_of p x) (equal_of p (operand_with f x))
  equal_second-AlikeSql p (one n) c d = equal_of-AlikeSql p n c d
  equal_second-AlikeSql p absent c d = refl
  equal_second-AlikeSql p (foreign t) c d = refl
  equal_second-AlikeSql p (many ns) c d = refl

  -- The second operand and its type.
  second-AlikeSql :
      (x : Operand) (t : Option DataType) (r s : Sql)
      → IsCleanOperand x
      → AlikeSql r s
      → AlikeSql (second_sql literal_proc parse_uuid format_date get_property_metadata x t r) (
          second_sql literal_proc parse_uuid format_date get_property_metadata
            (operand_with f x)
            t
            s)
  second-AlikeSql (one (constant v)) t r s c a =
      visit_constant_node-Alike literal_proc h parse_uuid format_date f v t c
  second-AlikeSql (one (access p)) t r s c a = a
  second-AlikeSql (one n) t r s c a = a
  second-AlikeSql absent t r s c a = a
  second-AlikeSql (foreign u) t r s c a = a
  second-AlikeSql (many ns) t r s c a = a

  type_of_operand-with : (x : Operand) → type_of_operand (operand_with f x) ≡ type_of_operand x
  type_of_operand-with (one (constant (str s))) = refl
  type_of_operand-with (one (constant v)) = refl
  type_of_operand-with (one (access p)) = refl
  type_of_operand-with (one n) = refl
  type_of_operand-with absent = refl
  type_of_operand-with (foreign u) = refl
  type_of_operand-with (many ns) = refl

  pub plain_comparison-AlikeSql :
      (n : Node) (op : ComparisonNodeOperator) (x : Operand) (r r' s s' : Sql)
      → IsCleanOperand x
      → AlikeSql r r'
      → AlikeSql s s'
      → AlikeSql
          (plain_comparison literal_proc parse_uuid format_date get_property_metadata n op x r s)
          (plain_comparison literal_proc parse_uuid format_date get_property_metadata
            (node_with f n)
            op
            (operand_with f x)
            r'
            s')
  plain_comparison-AlikeSql n op x r r' s s' c a b =
      rw (force_cast-with f n, operand_type-with f n, type_of_operand-with x)
        (forced (force_cast n))
    where
      forced :
          (q : Result SqlError Bool)
          → AlikeSql
              (q >>= λ force. r >>= λ first.
                second_sql literal_proc parse_uuid format_date get_property_metadata x
                  (operand_type n)
                  s
                >>= λ second.
                    cast_first force (operand_type n) (type_of_operand x) first >>= λ casted.
                    compare_sql op casted second)
              (q >>= λ force. r' >>= λ first.
                second_sql literal_proc parse_uuid format_date get_property_metadata
                  (operand_with f x)
                  (operand_type n)
                  s'
                >>= λ second.
                    cast_first force (operand_type n) (type_of_operand x) first >>= λ casted.
                    compare_sql op casted second)
      forced (err e) = refl
      forced (ok force) = bind-AlikeSql r r' _ _ a (λ y z d.
          bind-AlikeSql _ _ _ _ (second-AlikeSql x (operand_type n) s s' c b) (λ u v e.
            bind-AlikeSql _ _ _ _
              (cast_first-AlikeSql force (operand_type n) (type_of_operand x) y z d)
              (λ k l g. compare_sql-AlikeSql op k l u v g e)))
