-- ===== src/Cel/Mapper/Spec.antt =====
-- What a filter means, read off the tree that the user wrote.
use keep_api_gateway.Prelude.{
  String, Bool, true, false, not, ◌&&◌, all, Option, none, some, List, [], ◌∷◌, if◌then◌else◌,
}
use keep_api_gateway.Cel.Ast.{
  Value, null, ComparisonNodeOperator, lt, le, gt, ge, ne, negation, neg, has, and, or, DataType,
  Property, Node, constant, parenthesis, logical, comparison, unary, access, multiple_fields,
  Operand, absent, foreign, one, many,
}
use keep_api_gateway.Cel.Metadata.{PropertyMetadataInfo}
use keep_api_gateway.Cel.Meaning.{Row, compares, connect, constant_holds}
use keep_api_gateway.Cel.Mapper.Enums.{
  modify_comparison, canonicalize_enum_value, canonicalize_enum_operand, is_canonicalized,
}
use keep_api_gateway.Cel.Mapper.Rank.{rank, rank_test}
use keep_api_gateway.Cel.Mapper.{path_of, columns, falsy_values}

-- A stored value against a constant: by place in the enum for an order, else as the database does.
abbrev pub constant_meaning : Row → List String → Value → ComparisonNodeOperator → Value → Bool
constant_meaning row vs u lt c = rank_test lt (rank vs u) (rank vs (canonicalize_enum_value vs c))
constant_meaning row vs u le c = rank_test le (rank vs u) (rank vs (canonicalize_enum_value vs c))
constant_meaning row vs u gt c = rank_test gt (rank vs u) (rank vs (canonicalize_enum_value vs c))
constant_meaning row vs u ge c = rank_test ge (rank vs u) (rank vs (canonicalize_enum_value vs c))
constant_meaning row vs u op c = compares row u op (
    if is_canonicalized op then one (constant (canonicalize_enum_value vs c)) else one (constant c))

abbrev pub enum_meaning : Row → List String → Value → ComparisonNodeOperator → Operand → Bool
enum_meaning row vs u op (one (constant c)) = constant_meaning row vs u op c
enum_meaning row vs u op s =
    compares row u op (if is_canonicalized op then canonicalize_enum_operand vs s else s)

abbrev pub comparison_meaning : Row → List String → Value → ComparisonNodeOperator → Operand → Bool
comparison_meaning row [] u op s = compares row u op s
comparison_meaning row (v ∷ vs) u op s = enum_meaning row (v ∷ vs) u op s

-- A property stands for "neither NULL nor one of the falsy values of its type".
abbrev pub truthy : Row → Option DataType → Value → Bool
truthy row t u = all (λ c. row.test u ne (one (constant c))) (null ∷ falsy_values t)

abbrev pub is_none {ℓ} : {A : Type ℓ} → Option A → Bool
is_none none = true
is_none (some a) = false

-- Both are dropped or neither is.
abbrev pub agree : Bool → Bool → Bool
agree true b = b
agree false b = not b

abbrev is_property : Operand → Bool
is_property (one (access p)) = true
is_property x = false

-- The same, given what is known of the property; a property of which nothing is known is an error.
abbrev pub found_comparison :
    Row → Option PropertyMetadataInfo → ComparisonNodeOperator → Operand → Bool
found_comparison row none op s = false
found_comparison row (some info) op s =
    comparison_meaning row info.enum_values (row.cell (columns info)) op s

abbrev pub found_truth : Row → Option PropertyMetadataInfo → Bool
found_truth row none = false
found_truth row (some info) = truthy row info.data_type (row.cell (columns info))

-- `has(p)`; a property with no metadata is asked for as it is.
abbrev pub found_existence : Row → Property → Option PropertyMetadataInfo → Bool
found_existence row p none = row.exists (one (access p))
found_existence row p (some info) = row.exists (one (columns info))

abbrev pub found_drops : Option PropertyMetadataInfo → ComparisonNodeOperator → Operand → Bool
found_drops none op s = false
found_drops (some info) op s = is_none (modify_comparison info.enum_values (columns info) op s)

module _ (get_property_metadata : List String → Option PropertyMetadataInfo) where
  -- `has(p)`; a property with no metadata is asked for as it is.
  abbrev has_meaning : Row → Operand → Bool
  has_meaning row (one (access p)) = found_existence row p (get_property_metadata (path_of p))
  has_meaning row x = false

  unfoldable mutual
    pub means : Row → Node → Bool
    means row (constant v) = constant_holds v
    means row (parenthesis e) = means row e
    means row (logical l op r) = connect op (means row l) (means row r)
    means row (comparison (access p) op s) =
        found_comparison row (get_property_metadata (path_of p)) op s
    means row (comparison f op s) = compares row (row.cell f) op s
    means row (access p) = found_truth row (get_property_metadata (path_of p))
    means row (unary negation x) = not (means_operand row x)
    means row (unary has x) = has_meaning row x
    means row (unary neg x) = false
    means row (multiple_fields fs t) = false

    pub means_operand : Row → Operand → Bool
    means_operand row (one n) = means row n
    means_operand row absent = false
    means_operand row (foreign t) = false
    means_operand row (many ns) = false

  -- The mapper drops a comparison `<=` with the last member of an enum, and what is made of such
  -- comparisons alone by parentheses, `&&` and `||`.
  unfoldable pub drops : Node → Bool
  drops (parenthesis e) = drops e
  drops (logical l op r) = drops l && drops r
  drops (comparison (access p) op s) = found_drops (get_property_metadata (path_of p)) op s
  drops n = false

  -- The trees whose meaning the mapper keeps: of the two sides of an `||` none or both are dropped,
  -- and `has` is asked of a property.
  unfoldable mutual
    pub is_kept : Node → Bool
    is_kept (parenthesis e) = is_kept e
    is_kept (logical l and r) = is_kept l && is_kept r
    is_kept (logical l or r) = agree (drops l) (drops r) && (is_kept l && is_kept r)
    is_kept (unary negation x) = is_kept_operand x
    is_kept (unary neg x) = true
    is_kept (unary has x) = is_property x
    is_kept n = true

    pub is_kept_operand : Operand → Bool
    is_kept_operand (one n) = is_kept n
    is_kept_operand absent = true
    is_kept_operand (foreign t) = true
    is_kept_operand (many ns) = true
