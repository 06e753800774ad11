-- ===== src/Cel/Converter/Actions.antt =====
-- The stack of the visitor of src/repositories/cel_to_sql/cel_ast_converter.py, and what its methods
-- do there.
use keep_api_gateway.Prelude.{
  ℕ, zero, suc, String, Bool, ◌==◌, nat_eq, Option, none, some, List, [], ◌∷◌, ◌++◌, Result, ok,
  err, ◌>>=◌, if◌then◌else◌,
}
use keep_api_gateway.Cel.Ast.{
  LogicalNodeOperator, ComparisonNodeOperator, contains, starts_with, ends_with, has, column, Node,
  logical, comparison, unary, access, Operand, absent, foreign, one, many, Nodes, nil, cons,
}

-- The rules of the grammar, and a tree with the texts of its tokens among its children.
pub data Rule : Type 0 where
  expr conditional_or conditional_and relation addition multiplication unary_rule : Rule
  relation_of : ComparisonNodeOperator → Rule
  unary_not unary_neg member member_dot member_dot_arg member_index member_object primary : Rule
  dot_ident_arg dot_ident ident_arg ident paren_expr list_lit map_lit exprlist fieldinits : Rule
  mapinits literal : Rule

mutual
  pub data Tree : Type 0 where
    tree : Rule → Children → Tree

  pub data Children : Type 0 where
    nothing : Children
    token : String → Children → Children
    branch : Tree → Children → Children

-- Every exception of the visitor is answered alike: its class is left out.
pub data ConverterError : Type 0 where
  conversion_error : ConverterError

-- What stands on the stack: a node, a list, or the text of a conditional.
mutual
  pub data Item : Type 0 where
    node : Node → Item
    listed : Items → Item
    text : Item

  pub data Items : Type 0 where
    empty : Items
    more : Item → Items → Items

pub record Machine : Type 0 where
  pub stack : List Item
  pub member_access_stack : List (List String)

pub record Literals : Type 0 where
  pub read_int : String → Option (Bool × ℕ)
  pub read_float : String → Option String
  -- `none` where neither of the two regular expressions matches
  pub read_date : String → Option (Result ConverterError String)

abbrev pub Step : Type 0
Step = Result ConverterError Machine

abbrev pub child_count : Children → ℕ
child_count nothing = 0
child_count (token t cs) = suc (child_count cs)
child_count (branch t cs) = suc (child_count cs)

-- `tree.children[0].value` and `tree.children[1].value`
abbrev pub first_token : Children → Result ConverterError String
first_token (token t cs) = ok t
first_token _ = err conversion_error

abbrev pub second_token : Children → Result ConverterError String
second_token nothing = err conversion_error
second_token (token t cs) = first_token cs
second_token (branch t cs) = first_token cs

-- A list as the operand of a comparison.
abbrev pub and_node : Node → Option Nodes → Option Nodes
and_node n none = none
and_node n (some ns) = some (cons n ns)

abbrev pub nodes_of : Items → Option Nodes
nodes_of empty = some nil
nodes_of (more (node n) is) = and_node n (nodes_of is)
nodes_of (more _ is) = none

abbrev pub listed_operand : Option Nodes → Operand
listed_operand none = foreign "list"
listed_operand (some ns) = many ns

abbrev pub operand_of : Item → Operand
operand_of (node n) = one n
operand_of (listed is) = listed_operand (nodes_of is)
operand_of text = foreign "str"

-- A field that the model class declares as a node.
abbrev pub as_node : Item → Result ConverterError Node
as_node (node n) = ok n
as_node _ = err conversion_error

abbrev pub with_stack : List Item → Machine → Machine
with_stack is s = record s { stack = is }

abbrev pub push : Item → Machine → Step
push i s = ok (with_stack (i ∷ s.stack) s)

abbrev pub popped : List Item → Machine → (Item → Machine → Step) → Step
popped [] s next = err conversion_error
popped (i ∷ is) s next = next i (with_stack is s)

abbrev pub pop : Machine → (Item → Machine → Step) → Step
pop s next = popped s.stack s next

abbrev pub is_single : Children → Bool
is_single cs = nat_eq (child_count cs) 1

abbrev pub logical_node : LogicalNodeOperator → Item → Item → Result ConverterError Node
logical_node op left right = do l ← as_node left; r ← as_node right; ok (logical l op r)

abbrev pub push_node : Machine → Result ConverterError Node → Step
push_node s r = do n ← r; push (node n) s

abbrev pub logical_step : LogicalNodeOperator → Machine → Step
logical_step op s =
    pop s (λ right s₁. pop s₁ (λ left s₂. push_node s₂ (logical_node op left right)))

-- `comparison_node.second_operand = …`, which no other node has
abbrev pub filled_comparison : Item → Item → Result ConverterError Node
filled_comparison second (node (comparison f op s)) = ok (comparison f op (operand_of second))
filled_comparison second _ = err conversion_error

abbrev pub filled_unary : Item → Item → Result ConverterError Node
filled_unary operand (node (unary op x)) = ok (unary op (operand_of operand))
filled_unary operand _ = err conversion_error

abbrev pub fill_step : (Item → Item → Result ConverterError Node) → Machine → Step
fill_step fill s = pop s (λ second s₁. pop s₁ (λ first s₂. push_node s₂ (fill second first)))

abbrev pub opened_comparison : ComparisonNodeOperator → Item → Result ConverterError Node
opened_comparison op first = do f ← as_node first; ok (comparison f op absent)

abbrev pub field : List String → Item
field path = node (access (column path none))

-- `member_dot`: the path comes from the stack of members, and what is on the stack is replaced.
abbrev pub add_member : String → List (List String) → Machine → Step
add_member right [] s = ok s
add_member right (path ∷ paths) s = pop s (λ _ s₁. ok (record {
  stack = field (path ++ right ∷ []) ∷ s₁.stack;
  member_access_stack = (path ++ right ∷ []) ∷ paths;
}))

-- `ComparisonNodeOperator(right)` of a method
abbrev pub method_of : String → Result ConverterError ComparisonNodeOperator
method_of right =
    if right == "contains"
    then ok contains
    else if right == "startsWith"
    then ok starts_with
    else if right == "endsWith"
    then ok ends_with
    else err conversion_error

-- `exprlist[0]`
abbrev pub first_argument : Item → Result ConverterError Operand
first_argument (listed (more i is)) = ok (operand_of i)
first_argument text = ok (foreign "str")
first_argument _ = err conversion_error

abbrev pub method_call : String → Item → Item → Result ConverterError Node
method_call right arguments first = do
  op ← method_of right
  f ← as_node first
  a ← first_argument arguments
  ok (comparison f op a)

-- The end of `member_dot_arg`.
abbrev pub call_method : String → Item → List (List String) → Machine → Step
call_method right arguments [] s = err conversion_error
call_method right arguments (path ∷ paths) s =
    pop s (λ first s₁. push_node s₁ (method_call right arguments first))

-- `stack.pop()[0]` as the operand of `has`
abbrev pub has_node : Item → Result ConverterError Node
has_node (listed (more (node n) is)) = ok (unary has (one n))
has_node _ = err conversion_error

abbrev pub reversed_onto : Items → Items → Items
reversed_onto done empty = done
reversed_onto done (more i is) = reversed_onto (more i done) is

-- `reversed(…)` of what is on top of a stack that is not empty
abbrev pub reverse_top : List Item → Machine → Step
reverse_top [] s = ok s
reverse_top (listed is ∷ rest) s = ok (with_stack (listed (reversed_onto empty is) ∷ rest) s)
reverse_top (_ ∷ rest) s = err conversion_error

-- The items that `exprlist` pops, from the top.
abbrev pub pop_items : ℕ → Items → List Item → Machine → Step
pop_items zero taken rest s = ok (with_stack (listed (reversed_onto empty taken) ∷ rest) s)
pop_items (suc n) taken [] s = err conversion_error
pop_items (suc n) taken (i ∷ rest) s = pop_items n (more i taken) rest s
