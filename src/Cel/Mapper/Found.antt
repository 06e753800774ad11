-- ===== src/Cel/Mapper/Found.antt =====
-- The places where the mapper looks up a property.
use keep_api_gateway.Prelude.{
  String, true, false, ◌&&◌, all, Option, none, some, List, [], ◌∷◌, ◌++◌, ok, ◌>>=◌, ◌≡◌, refl,
  arith,
}
use keep_api_gateway.Cel.Ast.{
  Value, ComparisonNodeOperator, lt, le, gt, ge, ne, has, and, DataType, Property, Node, constant,
  logical, comparison, unary, Operand, one,
}
use keep_api_gateway.Cel.Metadata.{PropertyMetadataInfo}
use keep_api_gateway.Cel.Meaning.{Row, holds, passes}
use keep_api_gateway.Cel.Mapper.Enums.{modify_comparison, canonicalize_enum_operand}
use keep_api_gateway.Cel.Mapper.Rank.{Distinct}
use keep_api_gateway.Cel.Mapper.Order.{modify_comparison-rank_test}
use keep_api_gateway.Cel.Mapper.Spec.{
  comparison_meaning, truthy, found_drops, found_comparison, found_truth, found_existence,
}
use keep_api_gateway.Cel.Mapper.{truthiness, and_not_equal, falsy_values, columns, map_found}
use keep_api_gateway.Cel.Mapper.Gives.{Gives, Is}

module _ (row : Row) where
  pub modify_comparison-meaning :
      (vs : List String) (first : Node) (op : ComparisonNodeOperator) (s : Operand)
      → Distinct vs
      → passes row (modify_comparison vs first op s)
        ≡ comparison_meaning row vs (row.cell first) op s
  unfolding modify_comparison canonicalize_enum_operand holds
  modify_comparison-meaning [] first op s d = refl
  modify_comparison-meaning (v ∷ vs) first lt (one (constant c)) d =
      modify_comparison-rank_test row v vs first lt c d tt
  modify_comparison-meaning (v ∷ vs) first le (one (constant c)) d =
      modify_comparison-rank_test row v vs first le c d tt
  modify_comparison-meaning (v ∷ vs) first gt (one (constant c)) d =
      modify_comparison-rank_test row v vs first gt c d tt
  modify_comparison-meaning (v ∷ vs) first ge (one (constant c)) d =
      modify_comparison-rank_test row v vs first ge c d tt
  modify_comparison-meaning (v ∷ vs) first op (one (constant c)) d = refl
  modify_comparison-meaning (v ∷ vs) first op s d = refl

  pub and_not_equal-all :
      (mapped node : Node) (vs : List Value)
      → holds row (and_not_equal mapped node vs)
        ≡ (holds row node && all (λ c. row.test (row.cell mapped) ne (one (constant c))) vs)
  unfolding holds
  and_not_equal-all mapped node [] = ground arith
  and_not_equal-all mapped node (v ∷ vs) = ground (
    arith,
    and_not_equal-all mapped (logical node and (comparison mapped ne (one (constant v)))) vs,
  )

  pub truthiness-truthy :
      (mapped : Node) (t : Option DataType)
      → holds row (truthiness mapped t) ≡ truthy row t (row.cell mapped)
  unfolding holds
  truthiness-truthy mapped t = and_not_equal-all mapped _ (falsy_values t)

-- The three places where the mapper looks up a property.
module _ (row : Row) (p : Property) where
  pub Is-found_comparison :
      (op : ComparisonNodeOperator) (s : Operand) (fs : List PropertyMetadataInfo)
      (o : Option PropertyMetadataInfo)
      → ((info : PropertyMetadataInfo) → o ≡ some info → Distinct info.enum_values)
      → Gives (Is row (found_drops o op s) true (found_comparison row o op s)) (do
        (mapped, info) ← map_found true p o
        ok (modify_comparison info.enum_values mapped op s, fs ++ info ∷ []))
  Is-found_comparison op s fs none d = tt
  Is-found_comparison op s fs (some info) d =
      (refl, λ _. modify_comparison-meaning row info.enum_values (columns info) op s (d info refl))

  pub Is-found_truth :
      (fs : List PropertyMetadataInfo) (o : Option PropertyMetadataInfo)
      → Gives (Is row false true (found_truth row o)) (do
        (mapped, info) ← map_found true p o
        ok (some (truthiness mapped info.data_type), fs ++ info ∷ []))
  Is-found_truth fs none = tt
  Is-found_truth fs (some info) = (refl, λ _. truthiness-truthy row (columns info) info.data_type)

  pub Is-found_existence :
      (fs : List PropertyMetadataInfo) (o : Option PropertyMetadataInfo)
      → Gives (Is row false true (found_existence row p o)) (do
        (mapped, info) ← map_found false p o
        ok (some (unary has (one mapped)), fs ++ info ∷ []))
  unfolding holds
  Is-found_existence fs none = (refl, λ _. refl)
  Is-found_existence fs (some info) = (refl, λ _. refl)
