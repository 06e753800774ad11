-- ===== src/Cel/Mapper/Enums.antt =====
-- `canonicalize_enum_value`, `canonicalize_enum_operand` and
-- `_modify_comparison_node_based_on_mapping` of properties_mapper.py.
use keep_api_gateway.Prelude.{
  ℕ, suc, ◌+◌, String, Bool, true, false, ◌==◌, lower, contains, leb, length, drop, Option, none,
  some, List, [], ◌∷◌, map, if◌then◌else◌,
}
use keep_api_gateway.Cel.Ast.{
  Value, null, bool, str, int, float, datetime, ComparisonNodeOperator, lt, le, gt, ge, eq, ne,
  is_in, starts_with, ends_with, UnaryNodeOperator, negation, Node, constant, comparison, unary,
  Operand, absent, foreign, one, many, Nodes, nil, cons, constants,
}
use keep_api_gateway.Cel.Ast

-- The first member that equals the text but for case, else the text itself.
unfoldable pub canonical_text : List String → String → String
unfolding lower
canonical_text [] s = s
canonical_text (v ∷ vs) s = if lower v == lower s then v else canonical_text vs s

unfoldable pub canonicalize_enum_value : List String → Value → Value
unfolding canonical_text
canonicalize_enum_value vs (str s) = str (canonical_text vs s)
canonicalize_enum_value vs v = v

abbrev pub canonical_nodes : List String → Nodes → Nodes
canonical_nodes vs nil = nil
canonical_nodes vs (cons (constant v) ns) =
    cons (constant (canonicalize_enum_value vs v)) (canonical_nodes vs ns)
canonical_nodes vs (cons n ns) = cons n (canonical_nodes vs ns)

unfoldable pub canonicalize_enum_operand : List String → Operand → Operand
canonicalize_enum_operand vs (one (constant v)) = one (constant (canonicalize_enum_value vs v))
canonicalize_enum_operand vs (many ns) = many (canonical_nodes vs ns)
canonicalize_enum_operand vs s = s

-- `ENUM_CANONICALIZATION_OPERATORS`
abbrev pub is_canonicalized : ComparisonNodeOperator → Bool
is_canonicalized Ast.contains = false
is_canonicalized starts_with = false
is_canonicalized ends_with = false
is_canonicalized _ = true

-- `value in enum_values`, for a list of texts
abbrev pub is_member : List String → Value → Bool
is_member vs (str s) = contains vs s
is_member vs _ = false

-- `enum_values.index(text)`; the length of the list where the source would raise.
unfoldable pub index : List String → String → ℕ
index [] s = 0
index (v ∷ vs) s = let rest = index vs s in if v == s then 0 else suc rest

abbrev pub index_of : List String → Value → ℕ
index_of vs (str s) = index vs s
index_of vs _ = length vs

abbrev pub texts : List String → Nodes
texts vs = constants (map str vs)

abbrev pub in_texts : Node → List String → Node
in_texts first vs = comparison first is_in (many (texts vs))

-- An order against a constant, once the constant is canonical.
module _ (vs : List String) (first : Node) (v : Value) where
  unfoldable pub order_by_index : ComparisonNodeOperator → Option Node
  order_by_index lt =
      if is_member vs v
      then some (unary negation (one (in_texts first (drop (index_of vs v) vs))))
      else some (unary negation (one (in_texts first vs)))
  order_by_index le =
      if is_member vs v
      then (if leb (length vs) (index_of vs v + 1)
          then none
          else some (unary negation (one (in_texts first (drop (index_of vs v + 1) vs)))))
      else some (unary negation (one (in_texts first vs)))
  order_by_index gt =
      if is_member vs v
      then (if leb (length vs) (index_of vs v + 1)
          then some (constant (bool false))
          else some (in_texts first (drop (index_of vs v + 1) vs)))
      else some (in_texts first vs)
  order_by_index ge =
      if is_member vs v
      then some (in_texts first (drop (index_of vs v) vs))
      else some (in_texts first vs)
  order_by_index op = some (comparison first op (one (constant v)))

unfoldable pub modify_canonical :
    List String → Node → ComparisonNodeOperator → Operand → Option Node
unfolding order_by_index
modify_canonical vs first op (one (constant v)) = order_by_index vs first v op
modify_canonical vs first op s = some (comparison first op s)

-- A property with no enum values is compared as it is.
unfoldable pub modify_comparison :
    List String → Node → ComparisonNodeOperator → Operand → Option Node
unfolding modify_canonical
modify_comparison [] first op s = some (comparison first op s)
modify_comparison (v ∷ vs) first op s =
    modify_canonical (v ∷ vs) first op
      (if is_canonicalized op then canonicalize_enum_operand (v ∷ vs) s else s)
