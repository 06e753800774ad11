-- ===== src/Cel/Mapper/Order.antt =====
-- The mapped form of an order against a constant compares places in the enum.
use keep_api_gateway.Prelude.{◌+◌, String, drop, List, ◌∷◌, ◌≡◌, arith}
use keep_api_gateway.Cel.Ast.{Value, Node, constant, one, ComparisonNodeOperator, lt, le, gt, ge}
use keep_api_gateway.Cel.Meaning.{Row, listed-texts, holds, passes}
use keep_api_gateway.Cel.Mapper.Enums.{
  index_of, order_by_index, modify_comparison, canonicalize_enum_value, canonicalize_enum_operand,
}
use keep_api_gateway.Cel.Mapper.Rank.{Distinct, rank, rank_test, is_member-drop, rank-le-length}

module _ (row : Row) (vs : List String) (first : Node) (v : Value) (d : Distinct vs) where
  order_by_index-lt :
      passes row (order_by_index vs first v lt)
      ≡ rank_test lt (rank vs (row.cell first)) (rank vs v)
  unfolding order_by_index holds
  order_by_index-lt = ground (
    arith,
    listed-texts vs (row.cell first),
    listed-texts (drop (index_of vs v) vs) (row.cell first),
    is_member-drop vs (index_of vs v) (row.cell first) d,
  )

  order_by_index-le :
      passes row (order_by_index vs first v le)
      ≡ rank_test le (rank vs (row.cell first)) (rank vs v)
  unfolding order_by_index holds
  order_by_index-le = ground (
    arith,
    listed-texts vs (row.cell first),
    listed-texts (drop (index_of vs v + 1) vs) (row.cell first),
    is_member-drop vs (index_of vs v + 1) (row.cell first) d,
    rank-le-length vs (row.cell first),
  )

  order_by_index-gt :
      passes row (order_by_index vs first v gt)
      ≡ rank_test gt (rank vs (row.cell first)) (rank vs v)
  unfolding order_by_index holds
  order_by_index-gt = ground (
    arith,
    listed-texts vs (row.cell first),
    listed-texts (drop (index_of vs v + 1) vs) (row.cell first),
    is_member-drop vs (index_of vs v + 1) (row.cell first) d,
    rank-le-length vs (row.cell first),
  )

  order_by_index-ge :
      passes row (order_by_index vs first v ge)
      ≡ rank_test ge (rank vs (row.cell first)) (rank vs v)
  unfolding order_by_index holds
  order_by_index-ge = ground (
    arith,
    listed-texts vs (row.cell first),
    listed-texts (drop (index_of vs v) vs) (row.cell first),
    is_member-drop vs (index_of vs v) (row.cell first) d,
  )

abbrev pub IsOrder : ComparisonNodeOperator → Type 0
IsOrder lt = Unit
IsOrder le = Unit
IsOrder gt = Unit
IsOrder ge = Unit
IsOrder _ = ⊥

pub order_by_index-rank_test :
    (row : Row) (vs : List String) (first : Node) (op : ComparisonNodeOperator) (v : Value)
    → Distinct vs
    → IsOrder op
    → passes row (order_by_index vs first v op)
      ≡ rank_test op (rank vs (row.cell first)) (rank vs v)
order_by_index-rank_test row vs first lt v d o = order_by_index-lt row vs first v d
order_by_index-rank_test row vs first le v d o = order_by_index-le row vs first v d
order_by_index-rank_test row vs first gt v d o = order_by_index-gt row vs first v d
order_by_index-rank_test row vs first ge v d o = order_by_index-ge row vs first v d
order_by_index-rank_test row vs first _ v d o = absurd o

-- An order of an enum property against a constant lets a row pass exactly when the places that the
-- stored value and the literal (but for case) have in the enum are in that order. A value that is
-- no member counts as place 0; a literal that is no member as place 1 under `<` and `>=`.
pub modify_comparison-rank_test :
    (row : Row) (v : String) (vs : List String) (first : Node) (op : ComparisonNodeOperator)
    (c : Value)
    → Distinct (v ∷ vs)
    → IsOrder op
    → passes row (modify_comparison (v ∷ vs) first op (one (constant c)))
      ≡ rank_test op
          (rank (v ∷ vs) (row.cell first))
          (rank (v ∷ vs) (canonicalize_enum_value (v ∷ vs) c))
unfolding modify_comparison canonicalize_enum_operand
modify_comparison-rank_test row v vs first lt c d o =
    order_by_index-rank_test row (v ∷ vs) first lt (canonicalize_enum_value (v ∷ vs) c) d o
modify_comparison-rank_test row v vs first le c d o =
    order_by_index-rank_test row (v ∷ vs) first le (canonicalize_enum_value (v ∷ vs) c) d o
modify_comparison-rank_test row v vs first gt c d o =
    order_by_index-rank_test row (v ∷ vs) first gt (canonicalize_enum_value (v ∷ vs) c) d o
modify_comparison-rank_test row v vs first ge c d o =
    order_by_index-rank_test row (v ∷ vs) first ge (canonicalize_enum_value (v ∷ vs) c) d o
modify_comparison-rank_test row v vs first _ c d o = absurd o
