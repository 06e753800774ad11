-- ===== src/Cel/Sql/Membership.antt =====
-- The SQL of a membership with one text or another.
use keep_api_gateway.Prelude.{
  String, Bool, true, false, Option, none, some, List, [], ◌∷◌, refl, Result, ok, err, ◌>>=◌, map,
  All, any, if◌then◌else◌,
}
use keep_api_gateway.Cel.Ast.{
  Value, null, bool, str, int, float, datetime, LogicalNodeOperator, and, or,
  ComparisonNodeOperator, lt, le, gt, ge, eq, ne, is_in, contains, starts_with, ends_with,
  UnaryNodeOperator, negation, neg, has, DataType, string, uuid, integer, float_type, datetime_type,
  boolean, object, array, null_type, Property, column, Node, constant, parenthesis, logical,
  comparison, unary, access, multiple_fields, Operand, absent, foreign, one, many, Nodes, nil, cons,
  type_of,
}
use keep_api_gateway.Cel.Ast
use keep_api_gateway.Cel.Metadata.{PropertyMetadataInfo}
use keep_api_gateway.Cel.Sql.Scan.{place, begins_plain}
use keep_api_gateway.Cel.Sql.Alike.{
  Alike, AlikeSql, AreAlike, bind-AlikeSql, trail-Alike, glue-Alike, join-Alike, pair-Alike,
}
use keep_api_gateway.Cel.Sql.Dialect.{visit_constant_node, Sql, SqlError}
use keep_api_gateway.Cel.Sql.Texts.{
  value_with, node_with, operand_with, CleanValue, CleanProperty, property_sql-IsAlike,
}
use keep_api_gateway.Cel.Sql.Constants.{IsLiteral, visit_constant_node-Alike}
use keep_api_gateway.Cel.Sql.Comparisons.{
  visit_is_null-Alike, cast_if-AlikeSql, multiple_fields_sql-Alike,
}
use keep_api_gateway.Cel.Sql.Unchanged.{
  mixed_list-with, type_to_convert-with, without_nulls-with, any_null-with, listed-with,
}
use keep_api_gateway.Cel.Sql.Operands.{
  is_json, multiple_fields_sql, cast_if, is_known, listed, mixed_list, is_null, without_nulls,
  in_operand, type_to_convert,
}
use keep_api_gateway.Cel.Sql.{in_list, in_parts, visit_in}
use keep_api_gateway.Cel.Sql.Clean.{
  IsClean, IsCleanOperand, CleanValues, listed-CleanValues, without_nulls-All,
}

module _ (literal_proc : String → String) (h : IsLiteral literal_proc)
    (parse_uuid : String → Option String) (format_date : String → String)
    (get_property_metadata : List String → Option PropertyMetadataInfo) (f : String → String) where
  abbrev in_list_of : String → Option DataType → List Value → String
  in_list_of = in_list literal_proc parse_uuid format_date get_property_metadata

  texts-AreAlike :
      (t : Option DataType) (vs : List Value)
      → All CleanValue vs
      → AreAlike (map (λ v. visit_constant_node literal_proc parse_uuid format_date v t) vs) (
          map
            (λ v. visit_constant_node literal_proc parse_uuid format_date v t)
            (map (value_with f) vs))
  texts-AreAlike t [] c = tt
  texts-AreAlike t (v ∷ vs) c = (
    visit_constant_node-Alike literal_proc h parse_uuid format_date f v t c.0,
    texts-AreAlike t vs c.1,
  )

  in_list-Alike :
      (r s : String) (t : Option DataType) (vs : List Value)
      → Alike r s
      → All CleanValue vs
      → Alike (in_list_of r t vs) (in_list_of s t (map (value_with f) vs))
  unfolding place begins_plain
  in_list-Alike r s t vs a c =
      glue-Alike r s " in (" _ _ (refl, refl) a
        (trail-Alike _ _ ")" (refl, refl)
          (join-Alike ", " _ _ (refl, refl) (texts-AreAlike t vs c)))

  abbrev in_parts_of : String → Result SqlError (Option DataType) → List Value → Bool → Sql
  in_parts_of = in_parts literal_proc parse_uuid format_date get_property_metadata

  pub in_parts-AlikeSql :
      (r s : String) (t : Result SqlError (Option DataType)) (vs : List Value) (b : Bool)
      → Alike r s
      → All CleanValue vs
      → AlikeSql (in_parts_of r t vs b) (in_parts_of s t (map (value_with f) vs) b)
  unfolding place begins_plain
  in_parts-AlikeSql r s t [] false a c =
      visit_constant_node-Alike literal_proc h parse_uuid format_date f (bool false) none tt
  in_parts-AlikeSql r s t [] true a c = visit_is_null-Alike r s a
  in_parts-AlikeSql r s (err e) (v ∷ vs) false a c = refl
  in_parts-AlikeSql r s (ok t) (v ∷ vs) false a c = in_list-Alike r s t (v ∷ vs) a c
  in_parts-AlikeSql r s (err e) (v ∷ vs) true a c = refl
  in_parts-AlikeSql r s (ok t) (v ∷ vs) true a c =
      pair-Alike "(" " OR " ")" _ _ _ _ refl (refl, refl) (refl, refl)
        (in_list-Alike r s t (v ∷ vs) a c) (visit_is_null-Alike r s a)

  in_operand-AlikeSql :
      (n : Node) (mixed : Bool) (r s : Sql)
      → IsClean n
      → AlikeSql r s
      → AlikeSql (in_operand n mixed r) (in_operand (node_with f n) mixed s)
  in_operand-AlikeSql (access (Ast.json name p t)) mixed r s c a =
      cast_if-AlikeSql (is_known t) _ _ t (property_sql-IsAlike (Ast.json name p t) c)
  in_operand-AlikeSql (access (column p t)) mixed r s c a =
      cast_if-AlikeSql mixed _ _ (some string) (property_sql-IsAlike (column p t) c)
  in_operand-AlikeSql (multiple_fields ps t) mixed r s c a = in_fields (any is_json ps) ps t c
    where
      in_fields :
          (b : Bool) (ps : List Property) (t : Option DataType)
          → All CleanProperty ps
          → AlikeSql
              (if b
                then cast_if (is_known t) (multiple_fields_sql ps) t
                else ok (multiple_fields_sql ps))
              (if b
                then cast_if (is_known t) (multiple_fields_sql ps) t
                else ok (multiple_fields_sql ps))
      in_fields true ps t c = cast_if-AlikeSql (is_known t) _ _ t (multiple_fields_sql-Alike ps c)
      in_fields false ps t c = multiple_fields_sql-Alike ps c
  in_operand-AlikeSql (constant v) mixed r s c a = a
  in_operand-AlikeSql (parenthesis e) mixed r s c a = a
  in_operand-AlikeSql (logical l op x) mixed r s c a = a
  in_operand-AlikeSql (comparison l op x) mixed r s c a = a
  in_operand-AlikeSql (unary op x) mixed r s c a = a

  abbrev in_rest : Node → Sql → List Value → Sql
  in_rest n built vs = mixed_list vs >>= λ mixed. in_operand n mixed built >>= λ first.
      in_parts_of first (type_to_convert n) (without_nulls vs) (any is_null vs)

  in_rest-AlikeSql :
      (n : Node) (r s : Sql) (vs : List Value)
      → IsClean n
      → AlikeSql r s
      → All CleanValue vs
      → AlikeSql (in_rest n r vs) (in_rest (node_with f n) s (map (value_with f) vs))
  in_rest-AlikeSql n r s vs c a d =
      rw
        (
          mixed_list-with f vs,
          type_to_convert-with f n,
          without_nulls-with f vs,
          any_null-with f vs,
        )
        (mixed_first (mixed_list vs))
    where
      mixed_first :
          (m : Result SqlError Bool)
          → AlikeSql
              (m >>= λ mixed. in_operand n mixed r >>= λ first.
                in_parts_of first (type_to_convert n) (without_nulls vs) (any is_null vs))
              (m >>= λ mixed. in_operand (node_with f n) mixed s >>= λ first.
                in_parts_of first
                  (type_to_convert n)
                  (map (value_with f) (without_nulls vs))
                  (any is_null vs))
      mixed_first (err e) = refl
      mixed_first (ok mixed) =
          bind-AlikeSql (in_operand n mixed r) (in_operand (node_with f n) mixed s) _ _
            (in_operand-AlikeSql n mixed r s c a)
            (λ x y b.
              in_parts-AlikeSql x y (type_to_convert n) (without_nulls vs) (any is_null vs) b
                (without_nulls-All vs d))

  pub visit_in-AlikeSql :
      (n : Node) (x : Operand) (r s : Sql)
      → IsClean n
      → IsCleanOperand x
      → AlikeSql r s
      → AlikeSql (visit_in literal_proc parse_uuid format_date get_property_metadata n x r) (
          visit_in literal_proc parse_uuid format_date get_property_metadata
            (node_with f n)
            (operand_with f x)
            s)
  unfolding visit_in
  visit_in-AlikeSql n x r s c d a = rw (listed-with f x) (found (listed x) (listed-CleanValues x d))
    where
      found :
          (l : Result SqlError (List Value))
          → CleanValues l
          → AlikeSql
              (l >>= in_rest n r)
              ((l >>= λ vs. ok (map (value_with f) vs)) >>= in_rest (node_with f n) s)
      found (ok vs) e = in_rest-AlikeSql n r s vs c a e
      found (err e) h = refl
