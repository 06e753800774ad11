-- ===== src/Cel/Sql/Unchanged.antt =====
-- What a filter's other parts see of it does not depend on its texts.
use keep_api_gateway.Prelude.{
  not, ◌||◌, String, Bool, true, false, List, [], ◌∷◌, ◌≡◌, refl, ap, ◌∙◌, Result, ok, err, ◌>>=◌,
  map, any, if◌then◌else◌,
}
use keep_api_gateway.Cel.Ast.{
  Value, null, bool, str, int, float, datetime, LogicalNodeOperator, and, or,
  ComparisonNodeOperator, lt, le, gt, ge, eq, ne, is_in, contains, starts_with, ends_with,
  UnaryNodeOperator, negation, neg, has, DataType, string, uuid, integer, float_type, datetime_type,
  boolean, object, array, null_type, Property, column, Node, constant, parenthesis, logical,
  comparison, unary, access, multiple_fields, Operand, absent, foreign, one, many, Nodes, nil, cons,
  type_of,
}
use keep_api_gateway.Cel.Ast
use keep_api_gateway.Cel.Sql.Dialect.{SqlError}
use keep_api_gateway.Cel.Sql.Texts.{value_with, node_with, operand_with, nodes_with}
use keep_api_gateway.Cel.Sql.Operands.{
  operand_type, force_cast, is_instance, listed, later_values, values_of, mixed_list, is_mixed,
  is_null, without_nulls, type_to_convert,
}

module _ (f : String → String) where
  pub operand_type-with : (n : Node) → operand_type (node_with f n) ≡ operand_type n
  operand_type-with (access p) = refl
  operand_type-with (constant v) = refl
  operand_type-with _ = refl

  pub force_cast-with : (n : Node) → force_cast (node_with f n) ≡ force_cast n
  force_cast-with (access p) = refl
  force_cast-with (constant v) = refl
  force_cast-with _ = refl

  pub type_of-with : (v : Value) → type_of (value_with f v) ≡ type_of v
  type_of-with (str s) = refl
  type_of-with _ = refl

  pub is_mixed-with :
      (t : Ast.PyType) (vs : List Value) → is_mixed t (map (value_with f) vs) ≡ is_mixed t vs
  is_mixed-with t [] = refl
  is_mixed-with t (v ∷ vs) = rw (type_of-with v, is_mixed-with t vs) refl

  pub mixed_list-with : (vs : List Value) → mixed_list (map (value_with f) vs) ≡ mixed_list vs
  mixed_list-with [] = refl
  mixed_list-with (v ∷ vs) = ap ok (
      ap (λ t. is_mixed t (value_with f v ∷ map (value_with f) vs)) (type_of-with v)
      ∙ is_mixed-with (type_of v) (v ∷ vs))

  pub is_null-with : (v : Value) → is_null (value_with f v) ≡ is_null v
  is_null-with (str s) = refl
  is_null-with _ = refl

  pub any_null-with : (vs : List Value) → any is_null (map (value_with f) vs) ≡ any is_null vs
  any_null-with [] = refl
  any_null-with (v ∷ vs) = rw (is_null-with v, any_null-with vs) refl

  map-if :
      (b : Bool) (v : Value) (vs : List Value)
      → (if b then map (value_with f) vs else value_with f v ∷ map (value_with f) vs)
        ≡ map (value_with f) (if b then vs else v ∷ vs)
  map-if true v vs = refl
  map-if false v vs = refl

  pub without_nulls-with :
      (vs : List Value)
      → without_nulls (map (value_with f) vs) ≡ map (value_with f) (without_nulls vs)
  without_nulls-with [] = refl
  without_nulls-with (v ∷ vs) =
      rw (is_null-with v, without_nulls-with vs) (map-if (is_null v) v (without_nulls vs))

  cons_bind :
      (v : Value) (r : Result SqlError (List Value))
      → ((r >>= λ vs. ok (map (value_with f) vs)) >>= λ vs. ok (value_with f v ∷ vs))
        ≡ ((r >>= λ vs. ok (v ∷ vs)) >>= λ vs. ok (map (value_with f) vs))
  cons_bind v (ok vs) = refl
  cons_bind v (err e) = refl

  later_values-with :
      (t : Ast.PyType) (differs : Bool) (ns : Nodes)
      → later_values t differs (nodes_with f ns)
        ≡ (later_values t differs ns >>= λ vs. ok (map (value_with f) vs))
  later_values-with t differs nil = refl
  later_values-with t differs (cons (constant v) ns) =
      let others = differs || not (is_instance (type_of v) t) in
      rw (type_of-with v) (
        ap (λ r. r >>= λ vs. ok (value_with f v ∷ vs)) (later_values-with t others ns)
        ∙ cons_bind v (later_values t others ns))
  later_values-with t true (cons n ns) = later_values-with t true ns
  later_values-with t false (cons n ns) = refl

  pub values_of-with :
      (ns : Nodes)
      → values_of (nodes_with f ns) ≡ (values_of ns >>= λ vs. ok (map (value_with f) vs))
  values_of-with nil = refl
  values_of-with (cons (constant v) ns) = rw (type_of-with v) (
      ap (λ r. r >>= λ vs. ok (value_with f v ∷ vs)) (later_values-with (type_of v) false ns)
      ∙ cons_bind v (later_values (type_of v) false ns))
  values_of-with (cons n ns) = refl

  pub listed-with :
      (s : Operand) → listed (operand_with f s) ≡ (listed s >>= λ vs. ok (map (value_with f) vs))
  listed-with absent = refl
  listed-with (foreign t) = refl
  listed-with (one (constant v)) = refl
  listed-with (one n) = refl
  listed-with (many ns) = values_of-with ns

  pub type_to_convert-with : (n : Node) → type_to_convert (node_with f n) ≡ type_to_convert n
  unfolding type_to_convert
  type_to_convert-with (comparison n op s) = type_to_convert-with n
  type_to_convert-with (constant v) = refl
  type_to_convert-with _ = refl
