-- ===== src/Cel/Mapper.antt =====
-- src/repositories/cel_to_sql/properties_mapper.py: queried properties become columns, and an order
-- between the values of an enum becomes a membership test.
pub mod Enums
pub mod Rank
pub mod Order
pub mod Spec
pub mod Gives
pub mod Found
pub mod Sound
pub mod Repeat
pub mod Tests
use keep_api_gateway.Prelude.{
  String, Bool, true, false, Option, none, some, List, [], ◌∷◌, ◌++◌, map, join, Result, ok, err,
  ◌>>=◌, if◌then◌else◌,
}
use keep_api_gateway.Prelude.Dict.{Dict, put}
use keep_api_gateway.Cel.Ast.{
  Value, null, bool, str, int, LogicalNodeOperator, and, ComparisonNodeOperator, ne,
  UnaryNodeOperator, negation, neg, has, DataType, integer, float_type, boolean, Property, column,
  Node, constant, parenthesis, logical, comparison, unary, access, multiple_fields, Operand, absent,
  foreign, one, many,
}
use keep_api_gateway.Cel.Ast
use keep_api_gateway.Cel.Metadata.{FieldMapping, PropertyMetadataInfo, simple}
use keep_api_gateway.Cel.Metadata
use Enums.{modify_comparison}

pub data MappingError : Type 0 where
  -- `PropertiesMappingException`
  missing_mapping : (property : String) → MappingError
  -- `NotImplementedError`, with the name of the node's type
  not_supported : (type_name : String) → MappingError

-- `_create_property_access_node`
abbrev pub create_property_access_node : Option DataType → FieldMapping → Property
create_property_access_node t (Metadata.json j p) = Ast.json j p t
create_property_access_node t (simple m) = column (m ∷ []) t

-- The last statement of `_map_property`.
abbrev pub mapped_fields : Option DataType → List Property → Node
mapped_fields t (p ∷ []) = access p
mapped_fields t ps = multiple_fields ps t

-- The column or columns of a property.
abbrev pub columns : PropertyMetadataInfo → Node
columns info =
    mapped_fields info.data_type
      (map (create_property_access_node info.data_type) info.field_mappings)

abbrev pub path_of : Property → List String
path_of (column p t) = p
path_of (Ast.json j p t) = []

-- The node and the fields that it involves; `none` stands for the `None` of a filter that is dropped.
abbrev pub Visit : Type 0
Visit = Result MappingError (Option Node × List PropertyMetadataInfo)

-- `falsy_values` of `_visit_member_access_node`
abbrev pub falsy_values : Option DataType → List Value
falsy_values (some boolean) = bool false ∷ []
falsy_values (some integer) = int false 0 ∷ []
falsy_values (some float_type) = int false 0 ∷ []
falsy_values _ = str "0" ∷ str "" ∷ []

abbrev pub and_not_equal : Node → Node → List Value → Node
and_not_equal mapped node [] = node
and_not_equal mapped node (v ∷ vs) =
    and_not_equal mapped (logical node and (comparison mapped ne (one (constant v)))) vs

abbrev pub truthiness : Node → Option DataType → Node
truthiness mapped t =
    and_not_equal mapped (comparison mapped ne (one (constant null))) (falsy_values t)

-- The joined result of the two sides of a logical node.
abbrev pub join_sides : LogicalNodeOperator → Option Node → Option Node → Option Node
join_sides op none r = r
join_sides op (some l) none = some l
join_sides op (some l) (some r) = some (logical l op r)

collect : Dict PropertyMetadataInfo → List PropertyMetadataInfo → Dict PropertyMetadataInfo
collect d [] = d
collect d (f ∷ fs) = collect (put d f.field_name f) fs

unfoldable pub distinct_fields : List PropertyMetadataInfo → List PropertyMetadataInfo
unfolding collect put
distinct_fields fs = map (λ e. e.1) (collect [] fs)

-- `_map_property`, once the metadata has been looked up.
abbrev pub map_found :
    Bool
    → Property
    → Option PropertyMetadataInfo
    → Result MappingError (Node × PropertyMetadataInfo)
map_found true p none = err (missing_mapping (join "." (path_of p)))
map_found false p none = ok (
  access p,
  record {
    field_name = join "." (path_of p);
    field_mappings = simple (join "." (path_of p)) ∷ [];
    enum_values = [];
    data_type = none;
  },
)
map_found throw p (some info) = ok (columns info, info)

abbrev pub operand_of : Option Node → Operand
operand_of none = absent
operand_of (some n) = one n

-- The end of `__visit_unary_node`: an operand that is not dropped is visited a second time.
abbrev pub visit_again :
    UnaryNodeOperator
    → (List PropertyMetadataInfo → Visit)
    → Option Node × List PropertyMetadataInfo
    → Visit
visit_again op visit (none, involved) = ok (some (unary op (one (constant (bool true)))), involved)
visit_again op visit (some _, involved) = do
  (again, involved₂) ← visit involved
  ok (some (unary op (operand_of again)), involved₂)

module _ (get_property_metadata : List String → Option PropertyMetadataInfo) where
  -- `_map_property`, with `throw_mapping_error`
  unfoldable pub map_property : Bool → Property → Result MappingError (Node × PropertyMetadataInfo)
  map_property throw p = map_found throw p (get_property_metadata (path_of p))

  -- `_visit_member_access_node`
  unfoldable pub visit_member_access_node : Property → List PropertyMetadataInfo → Visit
  unfolding map_property
  visit_member_access_node p involved = do
    (mapped, info) ← map_property true p
    ok (some (truthiness mapped info.data_type), involved ++ info ∷ [])

  -- `__visit_comparison_node`
  unfoldable pub visit_comparison_node :
      Node → ComparisonNodeOperator → Operand → List PropertyMetadataInfo → Visit
  unfolding map_property
  visit_comparison_node (access p) op s involved = do
    (mapped, info) ← map_property true p
    ok (modify_comparison info.enum_values mapped op s, involved ++ info ∷ [])
  visit_comparison_node f op s involved = ok (some (comparison f op s), involved)

  -- `__visit_nodes` and `__visit_unary_node`. An operand that is not `None` is visited twice.
  unfoldable mutual
    pub visit_nodes : Node → List PropertyMetadataInfo → Visit
    visit_nodes (parenthesis e) involved = visit_nodes e involved
    visit_nodes (logical l op r) involved = do
      (left, involved₁) ← visit_nodes l involved
      (right, involved₂) ← visit_nodes r involved₁
      ok (join_sides op left right, involved₂)
    visit_nodes (comparison f op s) involved = visit_comparison_node f op s involved
    visit_nodes (access p) involved = visit_member_access_node p involved
    visit_nodes (unary op x) involved = visit_unary_node op x involved
    visit_nodes (constant v) involved = ok (some (constant v), involved)
    visit_nodes (multiple_fields fs t) involved = err (not_supported "MultipleFieldsNode")

    pub visit_unary_node : UnaryNodeOperator → Operand → List PropertyMetadataInfo → Visit
    visit_unary_node op absent involved = err (not_supported "NoneType")
    visit_unary_node op (foreign t) involved = err (not_supported t)
    visit_unary_node op (many ns) involved = err (not_supported "list")
    visit_unary_node has (one (access p)) involved = do
      (mapped, info) ← map_property false p
      ok (some (unary has (one mapped)), involved ++ info ∷ [])
    visit_unary_node op (one n) involved = visit_nodes n involved >>= visit_again op (visit_nodes n)

  -- `map_props_in_ast`: of the fields with one name the last is kept, at the place of the first.
  unfoldable pub map_props_in_ast :
      Node → Result MappingError (Option Node × List PropertyMetadataInfo)
  unfolding visit_nodes visit_unary_node distinct_fields
  map_props_in_ast n = do
    (mapped, involved) ← visit_nodes n []
    ok (mapped, distinct_fields involved)
