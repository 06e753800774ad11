-- ===== src/Cel/Converter/Correct.antt =====
-- The visitor leaves on its stack the node that a filter means.
use keep_api_gateway.Prelude.{String, List, [], ◌∷◌, ok, ◌≡◌, refl, ap}
use keep_api_gateway.Cel.Ast.{
  Value, ComparisonNodeOperator, column, Node, constant, access, one, many, Nodes, nil, cons,
}
use keep_api_gateway.Cel.Ast
use keep_api_gateway.Cel.Converter.Actions.{
  Tree, tree, exprlist, Machine, Literals, Item, node, listed, empty, field, reversed_onto,
}
use keep_api_gateway.Cel.Converter.{callback, visit, visit_children, convert_to_ast}
use keep_api_gateway.Cel.Converter.Trees.{
  Chain, an_expr, an_or, an_and, a_relation, a_sum, a_product, a_unary, a_member, a_primary,
  rule_of, Constant, spelled, passed, Field, named, dotted, indexed, field_in, Term, fixed,
  property, either, both, compared, compared_list, opposite, negative, present, enclosed, called,
  term_in, Terms, final, followed, Listing, bracketed, listing_in, only, constant_tree, field_tree,
  term_tree, terms_trees, listing_tree, value_of, path_of, meaning, IsSpelled, IsReadField, IsRead,
  AreRead, IsReadListing,
}
use keep_api_gateway.Cel.Converter.Stack.{
  Paths, machine, below, members, terms_members, listing_members, terms_members-IsSome, terms_items,
  onto, listing_items, nodes_of-listing, pop_items-all, reversed-twice, child_count-terms_trees,
  first_argument-reversed, call_method-some,
}

module _ (literals : Literals) (repr : Item → String) where
  callback-chain :
      (c : Chain) (t : Tree) (s : Machine) → callback literals repr (rule_of c) (only t) s ≡ ok s
  unfolding callback
  callback-chain an_expr t s = refl
  callback-chain an_or t s = refl
  callback-chain an_and t s = refl
  callback-chain a_relation t s = refl
  callback-chain a_sum t s = refl
  callback-chain a_product t s = refl
  callback-chain a_unary t s = refl
  callback-chain a_member t s = refl
  callback-chain a_primary t s = refl

  visit-chain :
      (c : Chain) (t : Tree) (s r : Machine)
      → visit literals repr t s ≡ ok r
      → visit literals repr (tree (rule_of c) (only t)) s ≡ ok r
  unfolding visit visit_children
  visit-chain c t s r h = rw (h) (callback-chain c t r)

  pub visit-constant :
      (l : Constant) (st : List Item) (m : Paths)
      → IsSpelled literals repr l
      → visit literals repr (constant_tree l) (machine st m)
        ≡ ok (machine (node (constant (value_of l)) ∷ st) m)
  unfolding visit visit_children callback
  visit-constant (spelled value v) st m h = rw (h) refl
  visit-constant (passed c l) st m h =
      visit-chain c (constant_tree l) (machine st m) _ (visit-constant l st m h)

  pub visit-field :
      (f : Field) (st : List Item) (m : Paths)
      → IsReadField literals repr f
      → visit literals repr (field_tree f) (machine st m)
        ≡ ok (machine (field (path_of f) ∷ st) (path_of f ∷ below f))
  unfolding visit visit_children callback
  visit-field (named x) st m h = refl
  visit-field (dotted f x) st m h = rw (visit-field f st m h) refl
  visit-field (indexed f l) st m h =
      rw
        (
          visit-field f st m h.0,
          visit-constant l (field (path_of f) ∷ st) (path_of f ∷ below f) h.1,
        )
        refl
  visit-field (field_in c f) st m h =
      visit-chain c (field_tree f) (machine st m) _ (visit-field f st m h)

  abbrev reversed_items : Terms → Item
  reversed_items ts = listed (reversed_onto empty (terms_items ts))

  visit-exprlist :
      (ts : Terms) (st : List Item) (m : Paths)
      → visit_children literals repr (terms_trees ts) (machine st m)
        ≡ ok (machine (onto (terms_items ts) st) (terms_members ts m))
      → visit literals repr (tree exprlist (terms_trees ts)) (machine st m)
        ≡ ok (machine (reversed_items ts ∷ st) (terms_members ts m))
  unfolding visit visit_children callback
  visit-exprlist ts st m h =
      rw (h, child_count-terms_trees ts)
        (pop_items-all (terms_items ts) st
          (machine (onto (terms_items ts) st) (terms_members ts m)))

  mutual
    unfolding visit visit_children callback

    visit-term :
        (t : Term) (st : List Item) (m : Paths)
        → IsRead literals repr t
        → visit literals repr (term_tree t) (machine st m)
          ≡ ok (machine (node (meaning t) ∷ st) (members t m))
    visit-term (fixed l) st m h = visit-constant l st m h
    visit-term (property f) st m h = visit-field f st m h
    visit-term (either t u) st m h =
        rw (visit-term t st m h.0, visit-term u (node (meaning t) ∷ st) (members t m) h.1) refl
    visit-term (both t u) st m h =
        rw (visit-term t st m h.0, visit-term u (node (meaning t) ∷ st) (members t m) h.1) refl
    visit-term (compared t op u) st m h =
        rw
          (
            visit-term t st m h.0,
            visit-term u (node (Ast.comparison (meaning t) op Ast.absent) ∷ st) (members t m) h.1,
          )
          refl
    visit-term (compared_list t op l) st m h =
        rw
          (
            visit-term t st m h.0,
            visit-listing l (node (Ast.comparison (meaning t) op Ast.absent) ∷ st) (members t m)
                h.1,
            nodes_of-listing l,
          )
          refl
    visit-term (opposite t) st m h =
        rw (visit-term t (node (Ast.unary Ast.negation Ast.absent) ∷ st) m h) refl
    visit-term (negative t) st m h =
        rw (visit-term t (node (Ast.unary Ast.neg Ast.absent) ∷ st) m h) refl
    visit-term (present t) st m h = rw (visit-term t st m h) refl
    visit-term (enclosed t) st m h = rw (visit-term t st m h) refl
    visit-term (called f name op ts) st m h =
        let known = path_of f ∷ below f in
        let receiver = field (path_of f) ∷ st in
        rw
          (
            visit-field f st m h.0,
            visit-exprlist ts receiver known (visit-terms ts receiver known h.2),
            call_method-some name (reversed_items ts) (terms_members ts known)
                (machine receiver (terms_members ts known)) (terms_members-IsSome ts known tt),
            h.1,
            first_argument-reversed ts empty,
          )
          refl
    visit-term (term_in c t) st m h =
        visit-chain c (term_tree t) (machine st m) _ (visit-term t st m h)

    visit-terms :
        (ts : Terms) (st : List Item) (m : Paths)
        → AreRead literals repr ts
        → visit_children literals repr (terms_trees ts) (machine st m)
          ≡ ok (machine (onto (terms_items ts) st) (terms_members ts m))
    visit-terms (final t) st m h = rw (visit-term t st m h) refl
    visit-terms (followed t ts) st m h =
        rw (visit-term t st m h.0) (visit-terms ts (node (meaning t) ∷ st) (members t m) h.1)

    visit-listing :
        (l : Listing) (st : List Item) (m : Paths)
        → IsReadListing literals repr l
        → visit literals repr (listing_tree l) (machine st m)
          ≡ ok (machine (listed (listing_items l) ∷ st) (listing_members l m))
    visit-listing (bracketed ts) st m h = rw (visit-exprlist ts st m (visit-terms ts st m h)) (
        ap (λ is. ok (machine (listed is ∷ st) (terms_members ts m)))
          (reversed-twice (terms_items ts)))
    visit-listing (listing_in c l) st m h =
        visit-chain c (listing_tree l) (machine st m) _ (visit-listing l st m h)

  -- Where the tokens of its literals are read, the tree of a filter of literals, fields, methods of
  -- fields, lists, tests of presence, comparisons and logical operators is visited to the end, and the
  -- answer is the node that the filter means.
  pub convert_to_ast-meaning :
      (t : Term)
      → IsRead literals repr t
      → convert_to_ast literals repr (term_tree t) ≡ ok (node (meaning t))
  unfolding convert_to_ast
  convert_to_ast-meaning t h = rw (visit-term t [] [] h) refl
