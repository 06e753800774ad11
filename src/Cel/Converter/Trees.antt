-- ===== src/Cel/Converter/Trees.antt =====
-- Filters as the grammar of celpy writes them, each as its parse tree and as the node that it means.
use keep_api_gateway.Prelude.{String, none, List, [], ◌∷◌, ◌++◌, ok, ◌≡◌}
use keep_api_gateway.Cel.Ast.{
  Value, and, or, ComparisonNodeOperator, negation, neg, has, column, Node, constant, parenthesis,
  logical, comparison, unary, access, one, many, Nodes, nil, cons,
}
use keep_api_gateway.Cel.Sql.Dialect.{str_of}
use keep_api_gateway.Cel.Converter.Actions.{
  Rule, expr, conditional_or, conditional_and, relation, addition, multiplication, unary_rule,
  relation_of, unary_not, unary_neg, member, member_dot, member_dot_arg, member_index, primary,
  ident_arg, ident, paren_expr, list_lit, exprlist, literal, Tree, tree, Children, nothing, token,
  branch, Literals, Item, method_of,
}
use keep_api_gateway.Cel.Converter.{to_constant}

-- The rules that may have a single child and then leave it as it is.
pub data Chain : Type 0 where
  an_expr an_or an_and a_relation a_sum a_product a_unary a_member a_primary : Chain

abbrev pub rule_of : Chain → Rule
rule_of an_expr = expr
rule_of an_or = conditional_or
rule_of an_and = conditional_and
rule_of a_relation = relation
rule_of a_sum = addition
rule_of a_product = multiplication
rule_of a_unary = unary_rule
rule_of a_member = member
rule_of a_primary = primary

-- A literal, with its token and the value that the token stands for.
pub data Constant : Type 0 where
  spelled : (value : String) → Value → Constant
  passed : Chain → Constant → Constant

-- A field: `name`, `field.name` and `field[literal]`.
pub data Field : Type 0 where
  named : String → Field
  dotted : Field → String → Field
  indexed : Field → Constant → Field
  field_in : Chain → Field → Field

mutual
  pub data Term : Type 0 where
    fixed : Constant → Term
    property : Field → Term
    either both : Term → Term → Term
    compared : Term → ComparisonNodeOperator → Term → Term
    compared_list : Term → ComparisonNodeOperator → Listing → Term
    opposite negative present enclosed : Term → Term
    -- a method of a field, by its name and as an operator
    called : Field → (name : String) → ComparisonNodeOperator → Terms → Term
    term_in : Chain → Term → Term

  pub data Terms : Type 0 where
    final : Term → Terms
    followed : Term → Terms → Terms

  pub data Listing : Type 0 where
    bracketed : Terms → Listing
    listing_in : Chain → Listing → Listing

abbrev pub only : Tree → Children
only t = branch t nothing

abbrev pub two : Tree → Tree → Children
two t u = branch t (branch u nothing)

abbrev pub constant_tree : Constant → Tree
constant_tree (spelled value v) = tree literal (token value nothing)
constant_tree (passed c l) = tree (rule_of c) (only (constant_tree l))

abbrev pub field_tree : Field → Tree
field_tree (named x) = tree ident (token x nothing)
field_tree (dotted f x) = tree member_dot (branch (field_tree f) (token x nothing))
field_tree (indexed f l) = tree member_index (two (field_tree f) (constant_tree l))
field_tree (field_in c f) = tree (rule_of c) (only (field_tree f))

abbrev mutual
  pub term_tree : Term → Tree
  term_tree (fixed l) = constant_tree l
  term_tree (property f) = field_tree f
  term_tree (either t u) = tree conditional_or (two (term_tree t) (term_tree u))
  term_tree (both t u) = tree conditional_and (two (term_tree t) (term_tree u))
  term_tree (compared t op u) =
      tree relation (two (tree (relation_of op) (only (term_tree t))) (term_tree u))
  term_tree (compared_list t op l) =
      tree relation (two (tree (relation_of op) (only (term_tree t))) (listing_tree l))
  term_tree (opposite t) = tree unary_rule (two (tree unary_not nothing) (term_tree t))
  term_tree (negative t) = tree unary_rule (two (tree unary_neg nothing) (term_tree t))
  term_tree (present t) = tree ident_arg (token "has" (only (tree exprlist (only (term_tree t)))))
  term_tree (enclosed t) = tree paren_expr (only (term_tree t))
  term_tree (called f name op ts) =
      tree member_dot_arg
        (branch (field_tree f) (token name (only (tree exprlist (terms_trees ts)))))
  term_tree (term_in c t) = tree (rule_of c) (only (term_tree t))

  pub terms_trees : Terms → Children
  terms_trees (final t) = only (term_tree t)
  terms_trees (followed t ts) = branch (term_tree t) (terms_trees ts)

  pub listing_tree : Listing → Tree
  listing_tree (bracketed ts) = tree list_lit (only (tree exprlist (terms_trees ts)))
  listing_tree (listing_in c l) = tree (rule_of c) (only (listing_tree l))

abbrev pub value_of : Constant → Value
value_of (spelled value v) = v
value_of (passed c l) = value_of l

abbrev pub path_of : Field → List String
path_of (named x) = x ∷ []
path_of (dotted f x) = path_of f ++ x ∷ []
path_of (indexed f l) = path_of f ++ str_of (value_of l) ∷ []
path_of (field_in c f) = path_of f

-- The node that a filter means. Of the arguments of a method the last one counts.
abbrev mutual
  pub meaning : Term → Node
  meaning (fixed l) = constant (value_of l)
  meaning (property f) = access (column (path_of f) none)
  meaning (either t u) = logical (meaning t) or (meaning u)
  meaning (both t u) = logical (meaning t) and (meaning u)
  meaning (compared t op u) = comparison (meaning t) op (one (meaning u))
  meaning (compared_list t op l) = comparison (meaning t) op (many (listing_nodes l))
  meaning (opposite t) = unary negation (one (meaning t))
  meaning (negative t) = unary neg (one (meaning t))
  meaning (present t) = unary has (one (meaning t))
  meaning (enclosed t) = parenthesis (meaning t)
  meaning (called f name op ts) =
      comparison (access (column (path_of f) none)) op (one (last_meaning ts))
  meaning (term_in c t) = meaning t

  pub last_meaning : Terms → Node
  last_meaning (final t) = meaning t
  last_meaning (followed t ts) = last_meaning ts

  pub terms_nodes : Terms → Nodes
  terms_nodes (final t) = cons (meaning t) nil
  terms_nodes (followed t ts) = cons (meaning t) (terms_nodes ts)

  pub listing_nodes : Listing → Nodes
  listing_nodes (bracketed ts) = terms_nodes ts
  listing_nodes (listing_in c l) = listing_nodes l

-- The tokens of the literals are read as their values, and the methods are known.
module _ (literals : Literals) (repr : Item → String) where
  abbrev pub IsSpelled : Constant → Type 0
  IsSpelled (spelled value v) = to_constant literals repr value ≡ ok v
  IsSpelled (passed c l) = IsSpelled l

  abbrev pub IsReadField : Field → Type 0
  IsReadField (named x) = Unit
  IsReadField (dotted f x) = IsReadField f
  IsReadField (indexed f l) = IsReadField f × IsSpelled l
  IsReadField (field_in c f) = IsReadField f

  abbrev mutual
    pub IsRead : Term → Type 0
    IsRead (fixed l) = IsSpelled l
    IsRead (property f) = IsReadField f
    IsRead (either t u) = IsRead t × IsRead u
    IsRead (both t u) = IsRead t × IsRead u
    IsRead (compared t op u) = IsRead t × IsRead u
    IsRead (compared_list t op l) = IsRead t × IsReadListing l
    IsRead (opposite t) = IsRead t
    IsRead (negative t) = IsRead t
    IsRead (present t) = IsRead t
    IsRead (enclosed t) = IsRead t
    IsRead (called f name op ts) = IsReadField f × (method_of name ≡ ok op) × AreRead ts
    IsRead (term_in c t) = IsRead t

    pub AreRead : Terms → Type 0
    AreRead (final t) = IsRead t
    AreRead (followed t ts) = IsRead t × AreRead ts

    pub IsReadListing : Listing → Type 0
    IsReadListing (bracketed ts) = AreRead ts
    IsReadListing (listing_in c l) = IsReadListing l
