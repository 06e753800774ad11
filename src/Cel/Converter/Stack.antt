-- ===== src/Cel/Converter/Stack.antt =====
-- The stack of the visitor: what a filter leaves there, and how lists are taken from it.
use keep_api_gateway.Prelude.{
  ℕ, suc, ◌+◌, String, some, List, [], ◌∷◌, ok, ◌≡◌, refl, ap, ◌∙◌, arith,
}
use keep_api_gateway.Cel.Ast.{one}
use keep_api_gateway.Cel.Converter.Actions.{
  child_count, Machine, Item, node, listed, Items, empty, more, nodes_of, first_argument,
  with_stack, push_node, method_call, call_method, pop, reversed_onto, pop_items,
}
use keep_api_gateway.Cel.Converter.Trees.{
  Field, named, dotted, indexed, field_in, Term, fixed, property, either, both, compared,
  compared_list, opposite, negative, present, enclosed, called, term_in, Terms, final, followed,
  Listing, bracketed, listing_in, terms_trees, path_of, meaning, last_meaning, terms_nodes,
  listing_nodes,
}

abbrev pub Paths : Type 0
Paths = List (List String)

abbrev pub machine : List Item → Paths → Machine
machine st m = record { stack = st; member_access_stack = m }

-- The fields that the visitor still knows after a filter.
abbrev pub below : Field → Paths
below (named x) = []
below (dotted f x) = below f
below (indexed f l) = path_of f ∷ below f
below (field_in c f) = below f

abbrev mutual
  pub members : Term → Paths → Paths
  members (fixed l) m = m
  members (property f) m = path_of f ∷ below f
  members (either t u) m = members u (members t m)
  members (both t u) m = members u (members t m)
  members (compared t op u) m = members u (members t m)
  members (compared_list t op l) m = listing_members l (members t m)
  members (opposite t) m = members t m
  members (negative t) m = members t m
  members (present t) m = members t m
  members (enclosed t) m = members t m
  members (called f name op ts) m = terms_members ts (path_of f ∷ below f)
  members (term_in c t) m = members t m

  pub terms_members : Terms → Paths → Paths
  terms_members (final t) m = members t m
  terms_members (followed t ts) m = terms_members ts (members t m)

  pub listing_members : Listing → Paths → Paths
  listing_members (bracketed ts) m = terms_members ts m
  listing_members (listing_in c l) m = listing_members l m

abbrev pub IsSome : Paths → Type 0
IsSome [] = ⊥
IsSome (p ∷ ps) = Unit

mutual
  pub members-IsSome : (t : Term) (m : Paths) → IsSome m → IsSome (members t m)
  members-IsSome (fixed l) m h = h
  members-IsSome (property f) m h = tt
  members-IsSome (either t u) m h = members-IsSome u _ (members-IsSome t m h)
  members-IsSome (both t u) m h = members-IsSome u _ (members-IsSome t m h)
  members-IsSome (compared t op u) m h = members-IsSome u _ (members-IsSome t m h)
  members-IsSome (compared_list t op l) m h = listing_members-IsSome l _ (members-IsSome t m h)
  members-IsSome (opposite t) m h = members-IsSome t m h
  members-IsSome (negative t) m h = members-IsSome t m h
  members-IsSome (present t) m h = members-IsSome t m h
  members-IsSome (enclosed t) m h = members-IsSome t m h
  members-IsSome (called f name op ts) m h = terms_members-IsSome ts _ tt
  members-IsSome (term_in c t) m h = members-IsSome t m h

  pub terms_members-IsSome : (ts : Terms) (m : Paths) → IsSome m → IsSome (terms_members ts m)
  terms_members-IsSome (final t) m h = members-IsSome t m h
  terms_members-IsSome (followed t ts) m h = terms_members-IsSome ts _ (members-IsSome t m h)

  pub listing_members-IsSome : (l : Listing) (m : Paths) → IsSome m → IsSome (listing_members l m)
  listing_members-IsSome (bracketed ts) m h = terms_members-IsSome ts m h
  listing_members-IsSome (listing_in c l) m h = listing_members-IsSome l m h

-- The items of a list, on the stack and off it.
abbrev pub terms_items : Terms → Items
terms_items (final t) = more (node (meaning t)) empty
terms_items (followed t ts) = more (node (meaning t)) (terms_items ts)

abbrev pub onto : Items → List Item → List Item
onto empty st = st
onto (more i is) st = onto is (i ∷ st)

abbrev pub size : Items → ℕ
size empty = 0
size (more i is) = suc (size is)

abbrev pub appended : Items → Items → Items
appended empty js = js
appended (more i is) js = more i (appended is js)

pub appended-empty : (is : Items) → appended is empty ≡ is
appended-empty empty = refl
appended-empty (more i is) = ap (more i) (appended-empty is)

pub pop_items-onto :
    (is : Items) (k : ℕ) (taken : Items) (st : List Item) (s : Machine)
    → pop_items (size is + k) taken (onto is st) s ≡ pop_items k (appended is taken) st s
pop_items-onto empty k taken st s = ap (λ n. pop_items n taken st s) (omega arith)
pop_items-onto (more i is) k taken st s =
    ap (λ n. pop_items n taken (onto is (i ∷ st)) s) (size_suc (size is) k)
    ∙ pop_items-onto is (suc k) taken (i ∷ st) s
  where
    size_suc : (n k : ℕ) → suc n + k ≡ n + suc k
    size_suc n k = omega arith

reversed-reversed :
    (xs d e : Items) → reversed_onto d (reversed_onto e xs) ≡ reversed_onto (appended xs d) e
reversed-reversed empty d e = refl
reversed-reversed (more x xs) d e = reversed-reversed xs d (more x e)

pub reversed-twice : (xs : Items) → reversed_onto empty (reversed_onto empty xs) ≡ xs
reversed-twice xs = reversed-reversed xs empty empty ∙ appended-empty xs

pub nodes_of-terms_items : (ts : Terms) → nodes_of (terms_items ts) ≡ some (terms_nodes ts)
nodes_of-terms_items (final t) = refl
nodes_of-terms_items (followed t ts) = rw (nodes_of-terms_items ts) refl

pub child_count-terms_trees : (ts : Terms) → child_count (terms_trees ts) ≡ size (terms_items ts)
child_count-terms_trees (final t) = refl
child_count-terms_trees (followed t ts) = ap (λ n. suc n) (child_count-terms_trees ts)

pub first_argument-reversed :
    (ts : Terms) (acc : Items)
    → first_argument (listed (reversed_onto acc (terms_items ts))) ≡ ok (one (last_meaning ts))
first_argument-reversed (final t) acc = refl
first_argument-reversed (followed t ts) acc =
    first_argument-reversed ts (more (node (meaning t)) acc)

pub call_method-some :
    (name : String) (arguments : Item) (m : Paths) (s : Machine)
    → IsSome m
    → call_method name arguments m s
      ≡ pop s (λ first s₁. push_node s₁ (method_call name arguments first))
call_method-some name arguments [] s h = absurd h
call_method-some name arguments (p ∷ ps) s h = refl

pub pop_items-all :
    (is : Items) (st : List Item) (s : Machine)
    → pop_items (size is) empty (onto is st) s
      ≡ ok (with_stack (listed (reversed_onto empty is) ∷ st) s)
pop_items-all is st s =
    ap (λ n. pop_items n empty (onto is st) s) (size_zero (size is))
    ∙ pop_items-onto is 0 empty st s
    ∙ ap (λ js. pop_items 0 js st s) (appended-empty is)
  where
    size_zero : (n : ℕ) → n ≡ n + 0
    size_zero n = omega arith

abbrev pub listing_items : Listing → Items
listing_items (bracketed ts) = terms_items ts
listing_items (listing_in c l) = listing_items l

pub nodes_of-listing : (l : Listing) → nodes_of (listing_items l) ≡ some (listing_nodes l)
nodes_of-listing (bracketed ts) = nodes_of-terms_items ts
nodes_of-listing (listing_in c l) = nodes_of-listing l
