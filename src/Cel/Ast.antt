-- ===== src/Cel/Ast.antt =====
-- src/repositories/cel_to_sql/ast_nodes.py and the node classes of properties_mapper.py.
-- A constant holds a Python value. A float and a datetime are kept as their `str`, which tells them
-- apart; the mapper and the filter test never look inside.
use keep_api_gateway.Prelude.{ℕ, String, Bool, true, false, ◌&&◌, Option, none, some, List, [], ◌∷◌}

pub data Value : Type 0 where
  null : Value
  bool : Bool → Value
  str : String → Value
  -- `negative` and the absolute value
  int : Bool → ℕ → Value
  float datetime : String → Value

pub data LogicalNodeOperator : Type 0 where
  and or : LogicalNodeOperator

pub data ComparisonNodeOperator : Type 0 where
  lt le gt ge eq ne is_in contains starts_with ends_with : ComparisonNodeOperator

pub data UnaryNodeOperator : Type 0 where
  negation neg has : UnaryNodeOperator

pub data DataType : Type 0 where
  string uuid integer float_type datetime_type boolean object array null_type : DataType

-- `PropertyAccessNode` and its subclass `JsonPropertyAccessNode`.
pub data Property : Type 0 where
  column : (path : List String) → Option DataType → Property
  json :
      (json_property_name : String)
      → (property_to_extract : List String) → Option DataType
      → Property

-- `Node` and its subclasses. The right side of a comparison and the operand of a unary node are
-- `None` until the parser fills them; `foreign` is any other Python object that it may leave there
-- (the dict of an arithmetic node, the text of a ternary).
mutual
  pub data Node : Type 0 where
    constant : Value → Node
    parenthesis : Node → Node
    logical : Node → LogicalNodeOperator → Node → Node
    comparison : Node → ComparisonNodeOperator → Operand → Node
    unary : UnaryNodeOperator → Operand → Node
    access : Property → Node
    multiple_fields : List Property → Option DataType → Node

  pub data Operand : Type 0 where
    absent : Operand
    foreign : (type_name : String) → Operand
    one : Node → Operand
    many : Nodes → Operand

  pub data Nodes : Type 0 where
    nil : Nodes
    cons : Node → Nodes → Nodes

-- `[ConstantNode(value=item) for item in values]`
abbrev pub constants : List Value → Nodes
constants [] = nil
constants (v ∷ vs) = cons (constant v) (constants vs)

abbrev pub is_bool : Value → Bool
is_bool (bool b) = true
is_bool _ = false

-- `is_boolean_filter_node`. An operand that is no node falls to the last line of the source.
unfoldable mutual
  pub is_boolean_filter_node : Node → Bool
  is_boolean_filter_node (parenthesis e) = is_boolean_filter_node e
  is_boolean_filter_node (logical l op r) = is_boolean_filter_node l && is_boolean_filter_node r
  is_boolean_filter_node (unary negation x) = is_boolean_filter_operand x
  is_boolean_filter_node (unary has x) = true
  is_boolean_filter_node (unary neg x) = false
  is_boolean_filter_node (comparison f op s) = true
  is_boolean_filter_node (constant v) = is_bool v
  is_boolean_filter_node (access p) = true
  is_boolean_filter_node (multiple_fields fs t) = false

  pub is_boolean_filter_operand : Operand → Bool
  is_boolean_filter_operand (one n) = is_boolean_filter_node n
  is_boolean_filter_operand absent = false
  is_boolean_filter_operand (foreign t) = false
  is_boolean_filter_operand (many ns) = false

-- The Python types that `type(value)` may give.
pub data PyType : Type 0 where
  py_str py_int py_float py_bool py_none py_dict py_list py_datetime py_other : PyType

abbrev pub type_of : Value → PyType
type_of null = py_none
type_of (bool b) = py_bool
type_of (str s) = py_str
type_of (int s n) = py_int
type_of (float r) = py_float
type_of (datetime r) = py_datetime

-- `from_type_to_data_type`; `none` is its ValueError.
unfoldable pub from_type_to_data_type : PyType → Option DataType
from_type_to_data_type py_str = some string
from_type_to_data_type py_int = some integer
from_type_to_data_type py_float = some float_type
from_type_to_data_type py_bool = some boolean
from_type_to_data_type py_none = some null_type
from_type_to_data_type py_dict = some object
from_type_to_data_type py_list = some array
from_type_to_data_type py_datetime = some datetime_type
from_type_to_data_type py_other = none
