-- ===== src/Cel/Converter.antt =====
-- src/repositories/cel_to_sql/cel_ast_converter.py: the visitor that turns a parse tree of celpy into
-- nodes, on a stack. Sums and products, whose dicts stand for no filter, are left out. Literals has
-- what the source asks of Python's `int`, `float` and `re` and of dateutil. `repr` is `str` of what is
-- no constant. A list, which the grammar never leaves empty, is no node, and what is left of a
-- conditional cannot be taken apart.
pub mod Actions
pub mod Trees
pub mod Stack
pub mod Correct
pub mod Tests
use Prim.Native.Char.{code}
use Prim.Native.String
use keep_api_gateway.Prelude.{
  ℕ, zero, suc, ◌+◌, String, Bool, true, false, ◌==◌, ◌&&◌, ◌||◌, nat_eq, is_infix, Option, none,
  some, List, [], ◌∷◌, ◌++◌, Result, ok, err, ◌>>=◌, if◌then◌else◌,
}
use keep_api_gateway.Cel.Ast.{
  Value, null, bool, str, int, float, datetime, LogicalNodeOperator, and, or,
  ComparisonNodeOperator, lt, le, gt, ge, eq, ne, is_in, contains, starts_with, ends_with,
  UnaryNodeOperator, negation, neg, has, Property, column, Node, constant, parenthesis, logical,
  comparison, unary, access, Operand, absent, foreign, one, many, Nodes, nil, cons,
}
use keep_api_gateway.Cel.Ast
use keep_api_gateway.Cel.Sql.Dialect.{str_of, inside_quotes}
use Actions.{
  Rule, Tree, Children, ConverterError, Item, Items, Machine, Literals, Step, child_count,
  first_token, second_token, and_node, nodes_of, listed_operand, operand_of, as_node, with_stack,
  push, popped, pop, is_single, logical_node, push_node, logical_step, filled_comparison,
  filled_unary, fill_step, opened_comparison, field, add_member, method_of, first_argument,
  method_call, call_method, has_node, reversed_onto, reverse_top, pop_items, expr, conditional_or,
  conditional_and, relation, addition, multiplication, unary_rule, relation_of, unary_not,
  unary_neg, member, member_dot, member_dot_arg, member_index, member_object, primary,
  dot_ident_arg, dot_ident, ident_arg, ident, paren_expr, list_lit, map_lit, exprlist, fieldinits,
  mapinits, literal, tree, nothing, token, branch, conversion_error, node, listed, text, empty,
  more,
}

-- `value.startswith(quote) and value.endswith(quote)`
abbrev pub begins_with : ℕ → String → Bool
begins_with q String.[] = false
begins_with q (String.◌∷◌ c s) = nat_eq (code c) q

unfoldable pub ends_with_quote : ℕ → String → Bool
ends_with_quote q String.[] = false
ends_with_quote q (String.◌∷◌ c String.[]) = nat_eq (code c) q
ends_with_quote q (String.◌∷◌ c (String.◌∷◌ d s)) = ends_with_quote q (String.◌∷◌ d s)

abbrev pub is_quoted_by : ℕ → String → Bool
is_quoted_by q s = begins_with q s && ends_with_quote q s

-- `re.sub(r'\\(["\'])', r"\1", value)`
abbrev pub is_quote_mark : ℕ → Bool
is_quote_mark c = nat_eq c b'"' || nat_eq c b'\''

unfoldable pub unescape : String → String
unescape String.[] = ""
unescape (String.◌∷◌ c String.[]) = String.◌∷◌ c ""
unescape (String.◌∷◌ c (String.◌∷◌ d s)) =
    let skipped = String.◌∷◌ d (unescape s) in
    let kept = String.◌∷◌ c (unescape (String.◌∷◌ d s)) in
    if nat_eq (code c) 92 && is_quote_mark (code d) then skipped else kept

module _ (literals : Literals) (repr : Item → String) where
  abbrev pub dated : String → Option (Result ConverterError String) → Result ConverterError Value
  dated s none = ok (str (unescape s))
  dated s (some (ok d)) = ok (datetime d)
  dated s (some (err e)) = err e

  abbrev pub quoted : String → Option (Bool × ℕ) → Result ConverterError Value
  quoted s none = dated s (literals.read_date s)
  quoted s (some n) = ok (str (unescape s))

  abbrev pub whole_number : Option (Bool × ℕ) → Result ConverterError Value
  whole_number none = err conversion_error
  whole_number (some (negative, n)) = ok (int negative n)

  abbrev pub number : String → Option String → Result ConverterError Value
  number s none = whole_number (literals.read_int s)
  number s (some r) = ok (float r)

  -- `to_constant_node`
  unfoldable pub to_constant : String → Result ConverterError Value
  unfolding ends_with_quote unescape inside_quotes
  to_constant s =
      if s == "null" || s == "NULL"
      then ok null
      else if is_quoted_by b'"' s || is_quoted_by b'\'' s
      then quoted (inside_quotes s) (literals.read_int (inside_quotes s))
      else if s == "true" || s == "false"
      then ok (bool (s == "true"))
      else number s (if is_infix "." s then literals.read_float s else none)

  abbrev pub push_constant : Machine → Result ConverterError Value → Step
  push_constant s r = do v ← r; push (node (constant v)) s

  -- `str(right)` of what indexes a field
  abbrev pub index_text : Item → Result ConverterError String
  index_text (node (constant v)) = ok (str_of v)
  index_text (node (access p)) = err conversion_error
  index_text i = ok (repr i)

  abbrev pub path_of : Item → Result ConverterError (List String)
  path_of (node (access (column path t))) = ok path
  path_of _ = err conversion_error

  abbrev pub push_field : List String → String → Machine → Step
  push_field path right s = ok (record {
    stack = field (path ++ right ∷ []) ∷ s.stack;
    member_access_stack = (path ++ right ∷ []) ∷ s.member_access_stack;
  })

  abbrev pub index_member : Item → Item → Machine → Step
  index_member left right s = do path ← path_of left; t ← index_text right; push_field path t s

  abbrev pub start_field : Machine → String → Step
  start_field s name =
      ok (record { stack = field (name ∷ []) ∷ s.stack; member_access_stack = (name ∷ []) ∷ [] })

  -- The method of the visitor that is named for the rule, at a node with these children.
  unfoldable pub callback : Rule → Children → Machine → Step
  unfolding to_constant
  callback expr cs s =
      if is_single cs then ok s else pop s (λ _ s₁. pop s₁ (λ _ s₂. pop s₂ (λ _ s₃. push text s₃)))
  callback conditional_or cs s = if is_single cs then ok s else logical_step or s
  callback conditional_and cs s = if is_single cs then ok s else logical_step and s
  callback relation cs s = if is_single cs then ok s else fill_step filled_comparison s
  callback (relation_of op) cs s = pop s (λ first s₁. push_node s₁ (opened_comparison op first))
  callback addition cs s = if is_single cs then ok s else err conversion_error
  callback multiplication cs s = if is_single cs then ok s else err conversion_error
  callback unary_rule cs s = if is_single cs then ok s else fill_step filled_unary s
  callback unary_not cs s = push (node (unary negation absent)) s
  callback unary_neg cs s = push (node (unary neg absent)) s
  callback member cs s = ok s
  callback primary cs s = ok s
  callback member_dot cs s = do right ← second_token cs; add_member right s.member_access_stack s
  callback member_dot_arg cs s = do
    right ← second_token cs
    (if nat_eq (child_count cs) 3
        then pop s (λ arguments s₁. call_method right arguments s₁.member_access_stack s₁)
        else call_method right (listed empty) s.member_access_stack s)
  callback member_index cs s = pop s (λ right s₁. pop s₁ (λ left s₂. index_member left right s₂))
  callback ident_arg cs s = do
    name ← first_token cs
    (if name == "has"
        then pop s (λ arguments s₁. push_node s₁ (has_node arguments))
        else err conversion_error)
  callback ident cs s = first_token cs >>= start_field s
  callback paren_expr cs s =
      pop s (λ inner s₁. push_node s₁ (as_node inner >>= λ n. ok (parenthesis n)))
  callback list_lit cs s = reverse_top s.stack s
  callback exprlist cs s = pop_items (child_count cs) empty s.stack s
  callback literal nothing s = ok s
  callback literal cs s = first_token cs >>= λ value. push_constant s (to_constant value)
  callback _ cs s = err conversion_error

  -- `Visitor_Recursive.visit`: the children first.
  unfoldable mutual
    unfolding callback

    pub visit : Tree → Machine → Step
    visit (tree rule cs) s = do visited ← visit_children cs s; callback rule cs visited

    pub visit_children : Children → Machine → Step
    visit_children nothing s = ok s
    visit_children (token t cs) s = visit_children cs s
    visit_children (branch t cs) s = do visited ← visit t s; visit_children cs visited

  abbrev pub bottom : List Item → Result ConverterError Item
  bottom [] = err conversion_error
  bottom (i ∷ []) = ok i
  bottom (i ∷ j ∷ is) = bottom (j ∷ is)

  -- `convert_to_ast`, once celpy has parsed the text
  unfoldable pub convert_to_ast : Tree → Result ConverterError Item
  convert_to_ast t = do
    final ← visit t (record { stack = []; member_access_stack = [] })
    bottom final.stack
