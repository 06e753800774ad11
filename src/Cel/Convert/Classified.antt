-- ===== src/Cel/Convert/Classified.antt =====
-- What the converter makes of a filter, the mapper understands.
use keep_api_gateway.Prelude.{
  String, Bool, true, false, ◌==◌, Option, none, some, List, [], Result, ok, err, ◌>>=◌, ◌≡◌, ◌≢◌,
  subst, if◌then◌else◌,
}
use keep_api_gateway.Cel.Ast.{
  ComparisonNodeOperator, UnaryNodeOperator, negation, neg, has, Property, column, Node, unary,
  access, Operand, one, is_boolean_filter_node,
}
use keep_api_gateway.Cel.Metadata.{PropertyMetadataInfo}
use keep_api_gateway.Cel.Mapper.{
  MappingError, missing_mapping, not_supported, map_found, map_props_in_ast, visit_nodes,
  visit_unary_node, visit_again, visit_comparison_node, visit_member_access_node, map_property,
  path_of,
}
use keep_api_gateway.Cel.Converter.Trees.{
  Term, fixed, property, either, both, compared, compared_list, opposite, negative, present,
  enclosed, called, term_in, meaning,
}
use keep_api_gateway.Cel.Sql.{build_sql_filter}
use keep_api_gateway.Cel.Sql.Dialect.{
  SqlError, not_implemented, value_error, attribute_error, index_error,
}
use keep_api_gateway.Cel.Convert
use keep_api_gateway.Cel.Convert.{
  ParseError, ConvertError, rejected, mapping_leak, building_leak, CelToSqlResult, checked, mapped,
  built, built_filter, convert_to_sql_str_v2,
}

-- An answer, or the exception for a field that is not known.
abbrev IsClassified {ℓ} : {A : Type ℓ} → Result MappingError A → Type 0
IsClassified (ok a) = Unit
IsClassified (err (missing_mapping p)) = Unit
IsClassified (err (not_supported t)) = ⊥

bind-IsClassified {ℓ κ} :
    {A : Type ℓ} {B : Type κ} (r : Result MappingError A) (f : A → Result MappingError B)
    → IsClassified r
    → ((a : A) → IsClassified (f a))
    → IsClassified (r >>= f)
bind-IsClassified (ok a) f h k = k a
bind-IsClassified (err (missing_mapping p)) f h k = tt
bind-IsClassified (err (not_supported t)) f h k = absurd h

map_found-IsClassified :
    (throw : Bool) (p : Property) (o : Option PropertyMetadataInfo)
    → IsClassified (map_found throw p o)
map_found-IsClassified true p none = tt
map_found-IsClassified false p none = tt
map_found-IsClassified true p (some info) = tt
map_found-IsClassified false p (some info) = tt

module _ (get_property_metadata : List String → Option PropertyMetadataInfo) where
  comparison-IsClassified :
      (n : Node) (op : ComparisonNodeOperator) (s : Operand) (involved : List PropertyMetadataInfo)
      → IsClassified (visit_comparison_node get_property_metadata n op s involved)
  unfolding visit_comparison_node map_property
  comparison-IsClassified (access p) op s involved =
      bind-IsClassified (map_found true p (get_property_metadata (path_of p))) _
        (map_found-IsClassified true p (get_property_metadata (path_of p))) (λ m. tt)
  comparison-IsClassified n op s involved = tt

  abbrev AlwaysClassified : Node → Type 0
  AlwaysClassified n =
      (involved : List PropertyMetadataInfo)
      → IsClassified (visit_nodes get_property_metadata n involved)

  again-IsClassified :
      (op : UnaryNodeOperator) (n : Node)
      → AlwaysClassified n
      → (involved : List PropertyMetadataInfo)
      → IsClassified (
          visit_nodes get_property_metadata n involved
          >>= visit_again op (visit_nodes get_property_metadata n))
  again-IsClassified op n h involved =
      bind-IsClassified (visit_nodes get_property_metadata n involved) _ (h involved) each
    where
      each :
          (r : Option Node × List PropertyMetadataInfo)
          → IsClassified (visit_again op (visit_nodes get_property_metadata n) r)
      each (none, fields) = tt
      each (some m, fields) =
          bind-IsClassified (visit_nodes get_property_metadata n fields) _ (h fields) (λ r. tt)

  unary-IsClassified :
      (op : UnaryNodeOperator) (n : Node) → AlwaysClassified n → AlwaysClassified (unary op (one n))
  unfolding visit_nodes visit_unary_node map_property
  unary-IsClassified has (access p) h involved =
      bind-IsClassified (map_found false p (get_property_metadata (path_of p))) _
        (map_found-IsClassified false p (get_property_metadata (path_of p))) (λ m. tt)
  unary-IsClassified op n h involved = again-IsClassified op n h involved

  access-IsClassified : (p : Property) → AlwaysClassified (access p)
  unfolding visit_nodes visit_member_access_node map_property
  access-IsClassified p involved =
      bind-IsClassified (map_found true p (get_property_metadata (path_of p))) _
        (map_found-IsClassified true p (get_property_metadata (path_of p))) (λ m. tt)

  visit_nodes-IsClassified : (t : Term) → AlwaysClassified (meaning t)
  unfolding visit_nodes visit_unary_node
  visit_nodes-IsClassified (fixed l) involved = tt
  visit_nodes-IsClassified (property f) involved = access-IsClassified (column _ none) involved
  visit_nodes-IsClassified (either t u) involved =
      bind-IsClassified _ _ (visit_nodes-IsClassified t involved)
        (λ l. bind-IsClassified _ _ (visit_nodes-IsClassified u l.1) (λ r. tt))
  visit_nodes-IsClassified (both t u) involved =
      bind-IsClassified _ _ (visit_nodes-IsClassified t involved)
        (λ l. bind-IsClassified _ _ (visit_nodes-IsClassified u l.1) (λ r. tt))
  visit_nodes-IsClassified (compared t op u) involved =
      comparison-IsClassified (meaning t) op _ involved
  visit_nodes-IsClassified (compared_list t op l) involved =
      comparison-IsClassified (meaning t) op _ involved
  visit_nodes-IsClassified (opposite t) involved =
      unary-IsClassified negation (meaning t) (visit_nodes-IsClassified t) involved
  visit_nodes-IsClassified (negative t) involved =
      unary-IsClassified neg (meaning t) (visit_nodes-IsClassified t) involved
  visit_nodes-IsClassified (present t) involved =
      unary-IsClassified has (meaning t) (visit_nodes-IsClassified t) involved
  visit_nodes-IsClassified (enclosed t) involved = visit_nodes-IsClassified t involved
  visit_nodes-IsClassified (called f name op ts) involved =
      comparison-IsClassified (access (column _ none)) op _ involved
  visit_nodes-IsClassified (term_in c t) involved = visit_nodes-IsClassified t involved

  map_props-IsClassified :
      (t : Term) → IsClassified (map_props_in_ast get_property_metadata (meaning t))
  unfolding map_props_in_ast
  map_props-IsClassified t =
      bind-IsClassified (visit_nodes get_property_metadata (meaning t) []) _
        (visit_nodes-IsClassified t []) (λ r. tt)

-- No exception of the mapper goes past the conversion.
abbrev IsCaught {ℓ} : {A : Type ℓ} → Result ConvertError A → Type 0
IsCaught (err (mapping_leak e)) = ⊥
IsCaught _ = Unit

mapped-IsCaught {ℓ} :
    {A : Type ℓ} (r : Result MappingError A) → IsClassified r → IsCaught (mapped r)
mapped-IsCaught (ok a) h = tt
mapped-IsCaught (err (missing_mapping p)) h = tt
mapped-IsCaught (err (not_supported t)) h = absurd h

bind-IsCaught {ℓ κ} :
    {A : Type ℓ} {B : Type κ} (r : Result ConvertError A) (f : A → Result ConvertError B)
    → IsCaught r
    → ((a : A) → IsCaught (f a))
    → IsCaught (r >>= f)
bind-IsCaught (ok a) f h k = k a
bind-IsCaught (err (rejected e)) f h k = tt
bind-IsCaught (err (building_leak e)) f h k = tt
bind-IsCaught (err (mapping_leak e)) f h k = absurd h

built-IsCaught {ℓ} : {A : Type ℓ} (r : Result SqlError A) → IsCaught (built r)
built-IsCaught (ok a) = tt
built-IsCaught (err not_implemented) = tt
built-IsCaught (err value_error) = tt
built-IsCaught (err attribute_error) = tt
built-IsCaught (err index_error) = tt

module _ (literal_proc : String → String) (parse_uuid : String → Option String)
    (format_date : String → String)
    (get_property_metadata : List String → Option PropertyMetadataInfo)
    (parse : String → Result ParseError Node) where
  built_filter-IsCaught :
      (m : Option Node × List PropertyMetadataInfo)
      → IsCaught (built_filter literal_proc parse_uuid format_date get_property_metadata parse m)
  built_filter-IsCaught (none, involved) = tt
  built_filter-IsCaught (some n, involved) =
      let sql = build_sql_filter literal_proc parse_uuid format_date get_property_metadata n in
      bind-IsCaught (built sql) _ (built-IsCaught sql) (λ s. tt)

  convert-IsCaught :
      (cel : String) (t : Term)
      → parse cel ≡ ok (meaning t)
      → IsCaught (
          convert_to_sql_str_v2 literal_proc parse_uuid format_date get_property_metadata parse cel)
  unfolding convert_to_sql_str_v2
  convert-IsCaught cel t h = rw (h) (each (cel == "") (is_boolean_filter_node (meaning t)))
    where
      sql : Result ConvertError CelToSqlResult
      sql =
          mapped (map_props_in_ast get_property_metadata (meaning t))
          >>= built_filter literal_proc parse_uuid format_date get_property_metadata parse

      sql_caught : IsCaught sql
      sql_caught =
          bind-IsCaught (mapped (map_props_in_ast get_property_metadata (meaning t))) _
            (mapped-IsCaught _ (map_props-IsClassified get_property_metadata t))
            built_filter-IsCaught

      each :
          (b c : Bool)
          → IsCaught (
              if b
              then ok ("", [])
              else (if c
                  then ok (meaning t)
                  else err (rejected (Convert.not_boolean cel (meaning t))))
                >>= λ query.
                    mapped (map_props_in_ast get_property_metadata query)
                    >>= built_filter literal_proc parse_uuid format_date get_property_metadata
                        parse)
      each true c = tt
      each false true = sql_caught
      each false false = tt

  -- Where the parser answers with the node that a filter of literals, fields, methods, lists, tests of
  -- presence, comparisons and logical operators means, the conversion lets no exception of the mapper
  -- pass.
  pub convert-classified :
      (cel : String) (t : Term) (e : MappingError)
      → parse cel ≡ ok (meaning t)
      → convert_to_sql_str_v2 literal_proc parse_uuid format_date get_property_metadata parse cel
        ≢ err (mapping_leak e)
  convert-classified cel t e h q = subst IsCaught q (convert-IsCaught cel t h)
