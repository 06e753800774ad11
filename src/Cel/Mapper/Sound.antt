-- ===== src/Cel/Mapper/Sound.antt =====
-- The mapper keeps the meaning of a filter.
use keep_api_gateway.Prelude.{String, true, false, Option, none, some, List, [], ok, ◌≡◌, refl}
use keep_api_gateway.Cel.Ast.{
  ComparisonNodeOperator, negation, neg, has, LogicalNodeOperator, and, or, Property, Node,
  constant, parenthesis, logical, comparison, unary, access, multiple_fields, Operand, absent,
  foreign, one, many,
}
use keep_api_gateway.Cel.Metadata.{PropertyMetadataInfo}
use keep_api_gateway.Cel.Meaning.{Row, holds, passes}
use keep_api_gateway.Cel.Mapper.Rank.{Distinct}
use keep_api_gateway.Cel.Mapper.Spec.{means, drops, is_kept}
use keep_api_gateway.Cel.Mapper.{
  visit_nodes, join_sides, path_of, map_property, map_props_in_ast, visit_comparison_node,
  visit_member_access_node, visit_unary_node,
}
use keep_api_gateway.Cel.Mapper.Gives.{
  Gives, Is, Gives-bind, Is-join_sides, Is-visit_again, Is-first_visit,
}
use keep_api_gateway.Cel.Mapper.Found.{Is-found_comparison, Is-found_truth, Is-found_existence}

module _ (get_property_metadata : List String → Option PropertyMetadataInfo)
    (distinct : (path : List String) (info : PropertyMetadataInfo)
      → get_property_metadata path ≡ some info
      → Distinct info.enum_values)
    (row : Row) where
  abbrev Keeps : Node → Option Node → Type 0
  Keeps n =
      Is row (drops get_property_metadata n) (is_kept get_property_metadata n)
        (means get_property_metadata row n)

  Keeps-comparison :
      (p : Property) (op : ComparisonNodeOperator) (s : Operand) (fs : List PropertyMetadataInfo)
      → Gives
          (Keeps (comparison (access p) op s))
          (visit_comparison_node get_property_metadata (access p) op s fs)
  unfolding visit_comparison_node drops is_kept means
  Keeps-comparison p op s fs = Is-found_comparison row p op s fs _ (distinct (path_of p))

  Keeps-access :
      (p : Property) (fs : List PropertyMetadataInfo)
      → Gives (Keeps (access p)) (visit_member_access_node get_property_metadata p fs)
  unfolding visit_member_access_node drops is_kept means
  Keeps-access p fs = Is-found_truth row p fs _

  Keeps-has :
      (x : Operand) (fs : List PropertyMetadataInfo)
      → Gives (Keeps (unary has x)) (visit_unary_node get_property_metadata has x fs)
  unfolding visit_nodes map_property drops is_kept means
  Keeps-has (one (access p)) fs = Is-found_existence row p fs (get_property_metadata (path_of p))
  Keeps-has absent fs = tt
  Keeps-has (foreign t) fs = tt
  Keeps-has (many ns) fs = tt
  Keeps-has (one n) fs =
      Is-first_visit row has false (λ x e. cc) (visit_nodes get_property_metadata n)
        (visit_nodes get_property_metadata n fs)

  Keeps-neg :
      (x : Operand) (fs : List PropertyMetadataInfo)
      → Gives (Keeps (unary neg x)) (visit_unary_node get_property_metadata neg x fs)
  unfolding visit_nodes drops is_kept means holds
  Keeps-neg absent fs = tt
  Keeps-neg (foreign t) fs = tt
  Keeps-neg (many ns) fs = tt
  Keeps-neg (one n) fs =
      Is-first_visit row neg true (λ x e. refl) (visit_nodes get_property_metadata n)
        (visit_nodes get_property_metadata n fs)

  Is-logical :
      (l : Node) (op : LogicalNodeOperator) (r : Node) (a b : Option Node)
      → Keeps l a
      → Keeps r b
      → Keeps (logical l op r) (join_sides op a b)
  unfolding drops is_kept means
  Is-logical l and r a b = Is-join_sides row _ _ _ _ _ _ and a b
  Is-logical l or r a b = Is-join_sides row _ _ _ _ _ _ or a b

  mutual
    unfolding visit_nodes visit_comparison_node drops is_kept means holds

    Keeps-visit_nodes :
        (n : Node) (fs : List PropertyMetadataInfo)
        → Gives (Keeps n) (visit_nodes get_property_metadata n fs)
    Keeps-visit_nodes (constant v) fs = (refl, λ _. refl)
    Keeps-visit_nodes (parenthesis e) fs = Keeps-visit_nodes e fs
    Keeps-visit_nodes (logical l op r) fs =
        Gives-bind (Keeps (logical l op r)) (visit_nodes get_property_metadata l fs) _
          (Keeps-visit_nodes l fs)
          λ a fs₁ ka.
            Gives-bind (Keeps (logical l op r)) (visit_nodes get_property_metadata r fs₁) _
              (Keeps-visit_nodes r fs₁) λ b fs₂ kb. Is-logical l op r a b ka kb
    Keeps-visit_nodes (comparison (access p) op s) fs = Keeps-comparison p op s fs
    Keeps-visit_nodes (comparison f op s) fs = (refl, λ _. refl)
    Keeps-visit_nodes (access p) fs = Keeps-access p fs
    Keeps-visit_nodes (multiple_fields ps t) fs = tt
    Keeps-visit_nodes (unary negation x) fs = Keeps-negation x fs
    Keeps-visit_nodes (unary neg x) fs = Keeps-neg x fs
    Keeps-visit_nodes (unary has x) fs = Keeps-has x fs

    Keeps-negation :
        (x : Operand) (fs : List PropertyMetadataInfo)
        → Gives (Keeps (unary negation x)) (visit_unary_node get_property_metadata negation x fs)
    Keeps-negation absent fs = tt
    Keeps-negation (foreign t) fs = tt
    Keeps-negation (many ns) fs = tt
    Keeps-negation (one n) fs = Is-visit_again row _ _ _ _ (Keeps-visit_nodes n) fs

  Keeps-map_props_in_ast : (n : Node) → Gives (Keeps n) (map_props_in_ast get_property_metadata n)
  unfolding map_props_in_ast
  Keeps-map_props_in_ast n =
      Gives-bind (Keeps n) (visit_nodes get_property_metadata n []) _ (Keeps-visit_nodes n [])
        (λ m fs k. k)

  Keeps-of_ok :
      (n : Node) (m : Option Node) (fs : List PropertyMetadataInfo)
      → map_props_in_ast get_property_metadata n ≡ ok (m, fs)
      → Keeps n m
  Keeps-of_ok n m fs e = rw e at (Keeps-map_props_in_ast n)

  -- Where the two sides of each `||` are dropped both or not at all and `has` is asked of properties,
  -- the mapped filter lets a row pass exactly when the filter that the user wrote holds of it.
  pub map_props_in_ast-means :
      (n : Node) (m : Option Node) (fs : List PropertyMetadataInfo)
      → map_props_in_ast get_property_metadata n ≡ ok (m, fs)
      → is_kept get_property_metadata n ≡ true
      → passes row m ≡ means get_property_metadata row n
  map_props_in_ast-means n m fs e k = (Keeps-of_ok n m fs e).1 k

  join_sides-or_dropped :
      (l r : Node) (a b : Option Node)
      → Keeps l a
      → Keeps r b
      → drops get_property_metadata l ≡ true
      → is_kept get_property_metadata r ≡ true
      → passes row (join_sides or a b) ≡ means get_property_metadata row r
  join_sides-or_dropped l r none b ka kb dl k = kb.1 k
  join_sides-or_dropped l r (some m) b ka kb dl k = cc (ka.0)

  visit_nodes-or_dropped :
      (l r : Node)
      → drops get_property_metadata l ≡ true
      → is_kept get_property_metadata r ≡ true
      → Gives
          (λ m. passes row m ≡ means get_property_metadata row r)
          (map_props_in_ast get_property_metadata (logical l or r))
  unfolding map_props_in_ast visit_nodes
  visit_nodes-or_dropped l r dl k =
      Gives-bind _ (visit_nodes get_property_metadata (logical l or r) []) _
        (Gives-bind _ (visit_nodes get_property_metadata l []) _ (Keeps-visit_nodes l [])
          λ a fs₁ ka.
            Gives-bind _ (visit_nodes get_property_metadata r fs₁) _ (Keeps-visit_nodes r fs₁)
              λ b fs₂ kb. join_sides-or_dropped l r a b ka kb dl k)
        (λ m fs h. h)

  -- If the left side of an `||` is dropped, and in the right side the two sides of each `||` are
  -- dropped both or not at all and `has` is asked of properties, the mapped filter is that of the right
  -- side alone: of a row it says what the right side means, whatever the left side means.
  pub map_props_in_ast-or_dropped :
      (l r : Node) (m : Option Node) (fs : List PropertyMetadataInfo)
      → map_props_in_ast get_property_metadata (logical l or r) ≡ ok (m, fs)
      → drops get_property_metadata l ≡ true
      → is_kept get_property_metadata r ≡ true
      → passes row m ≡ means get_property_metadata row r
  map_props_in_ast-or_dropped l r m fs e dl k = rw e at (visit_nodes-or_dropped l r dl k)
