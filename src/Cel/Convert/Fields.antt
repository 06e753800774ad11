-- ===== src/Cel/Convert/Fields.antt =====
-- `get_field_expression` of src/repositories/cel_to_sql/sql_providers/postgresql.py and
-- `get_order_by_expression` of base.py: the SQL that rows are ordered by.
use keep_api_gateway.Prelude.{
  ℕ, suc, String, ◌⧺◌, Bool, true, false, ◌==◌, ◌&&◌, any, length, leb, lower, join, Option, none,
  some, List, [], ◌∷◌, map, Result, ok, err, ◌>>=◌, ◌≡◌, ◌⊎◌, inl, inr, refl, ap, ◌∙◌, arith,
  if◌then◌else◌,
}
use keep_api_gateway.Cel.Ast.{DataType, string, column, Node, access, multiple_fields}
use keep_api_gateway.Cel.Metadata.{FieldMapping, simple, PropertyMetadataInfo}
use keep_api_gateway.Cel.Metadata
use keep_api_gateway.Cel.Mapper.{create_property_access_node, columns}
use keep_api_gateway.Cel.Sql.Dialect.{
  SqlError, index_error, Sql, cast, property_sql, json_extract_as_text,
}
use keep_api_gateway.Cel.Sql.Operands.{is_json, coalesced, field_sql, multiple_fields_sql}
use keep_api_gateway.Cel.Convert.{ConvertError, rejected, building_leak, nowhere, unknown_field}

-- A JSON field is cast where its type is known and no text.
abbrev pub cast_known : Option DataType → String → Sql
cast_known none e = ok e
cast_known (some string) e = ok e
cast_known t e = cast e t

abbrev pub mapping_sql : Option DataType → FieldMapping → Sql
mapping_sql t (Metadata.json j p) = cast_known t (json_extract_as_text j p)
mapping_sql t (simple m) = ok m

abbrev pub mapping_texts : Option DataType → List FieldMapping → Result SqlError (List String)
mapping_texts t [] = ok []
mapping_texts t (m ∷ ms) = do e ← mapping_sql t m; es ← mapping_texts t ms; ok (e ∷ es)

abbrev pub is_json_mapping : FieldMapping → Bool
is_json_mapping (Metadata.json j p) = true
is_json_mapping (simple m) = false

-- Beside JSON fields, columns are cast to TEXT.
abbrev pub to_text : List FieldMapping → List String → List String
to_text (Metadata.json j p ∷ ms) (e ∷ es) = e ∷ to_text ms es
to_text (simple m ∷ ms) (e ∷ es) = ("CAST(" ⧺ (e ⧺ " AS TEXT)")) ∷ to_text ms es
to_text _ _ = []

abbrev pub mixed_texts : List FieldMapping → List String → List String
mixed_texts ms es = if any is_json_mapping ms && leb 2 (length es) then to_text ms es else es

abbrev pub coalesced_or_first : List String → Sql
coalesced_or_first [] = err index_error
coalesced_or_first (e ∷ []) = ok e
coalesced_or_first es = ok (coalesced es)

-- `get_field_expression`, once the metadata is found
unfoldable pub field_expression : PropertyMetadataInfo → Sql
field_expression info = do
  es ← mapping_texts info.data_type info.field_mappings
  coalesced_or_first (mixed_texts info.field_mappings es)

abbrev pub found_expression : Option PropertyMetadataInfo → Result ConvertError String
found_expression none = err (rejected (nowhere unknown_field))
found_expression (some info) = elim (field_expression info) [
  | ok e ↦ ok e
  | err e ↦ err (building_leak e)
]

abbrev pub direction : String → String
direction d = if lower d == "asc" then "ASC" else "DESC"

module _ (get_property_metadata_for_str : String → Option PropertyMetadataInfo) where
  abbrev pub get_field_expression : String → Result ConvertError String
  get_field_expression cel_field = found_expression (get_property_metadata_for_str cel_field)

  abbrev pub sort_expressions : List (String × String) → Result ConvertError (List String)
  sort_expressions [] = ok []
  sort_expressions ((sort_by, sort_dir) ∷ options) = do
    order_by_exp ← get_field_expression sort_by
    rest ← sort_expressions options
    ok ((order_by_exp ⧺ (" " ⧺ direction sort_dir)) ∷ rest)

  unfoldable pub get_order_by_expression : List (String × String) → Result ConvertError String
  get_order_by_expression options = do
    expressions ← sort_expressions options
    ok (join ", " expressions)

-- The columns of a filter, as they stand in it.
abbrev pub node_sql : Node → String
node_sql (access p) = property_sql p
node_sql (multiple_fields ps t) = multiple_fields_sql ps
node_sql _ = ""

-- A property whose values need no cast.
abbrev pub IsText : Option DataType → Type 0
IsText t = (t ≡ none) ⊎ (t ≡ some string)

abbrev mapping_text : Option DataType → FieldMapping → String
mapping_text t m = property_sql (create_property_access_node t m)

cast_known-text : (t : Option DataType) (e : String) → IsText t → cast_known t e ≡ ok e
cast_known-text t e (inl h) = ap (λ t. cast_known t e) h
cast_known-text t e (inr h) = ap (λ t. cast_known t e) h

mapping_texts-text :
    (t : Option DataType) (ms : List FieldMapping)
    → IsText t
    → mapping_texts t ms ≡ ok (map (mapping_text t) ms)
unfolding join
mapping_texts-text t [] h = refl
mapping_texts-text t (simple m ∷ ms) h = rw (mapping_texts-text t ms h) refl
mapping_texts-text t (Metadata.json j p ∷ ms) h =
    rw (mapping_texts-text t ms h, cast_known-text t (json_extract_as_text j p) h) refl

abbrev field_texts : Bool → Option DataType → List FieldMapping → List String
field_texts b t ms = map (field_sql b) (map (create_property_access_node t) ms)

to_text-field_texts :
    (t : Option DataType) (ms : List FieldMapping)
    → to_text ms (map (mapping_text t) ms) ≡ field_texts true t ms
to_text-field_texts t [] = refl
to_text-field_texts t (simple m ∷ ms) =
    ap (λ r. field_sql true (column (m ∷ []) t) ∷ r) (to_text-field_texts t ms)
to_text-field_texts t (Metadata.json j p ∷ ms) =
    ap (λ r. json_extract_as_text j p ∷ r) (to_text-field_texts t ms)

plain-field_texts :
    (t : Option DataType) (ms : List FieldMapping)
    → map (mapping_text t) ms ≡ field_texts false t ms
plain-field_texts t [] = refl
plain-field_texts t (m ∷ ms) =
    ap (λ r. property_sql (create_property_access_node t m) ∷ r) (plain-field_texts t ms)

any_json :
    (t : Option DataType) (ms : List FieldMapping)
    → any is_json (map (create_property_access_node t) ms) ≡ any is_json_mapping ms
any_json t [] = refl
any_json t (simple m ∷ ms) = any_json t ms
any_json t (Metadata.json j p ∷ ms) = refl

at_least_two : (n : ℕ) → leb 2 (suc (suc n)) ≡ true
at_least_two n = ground arith

-- A field of texts, which needs no cast, is ordered by the same SQL as it is filtered by.
field_expression-columns :
    (info : PropertyMetadataInfo) (m : FieldMapping) (ms : List FieldMapping)
    → info.field_mappings ≡ m ∷ ms
    → IsText info.data_type
    → field_expression info ≡ ok (node_sql (columns info))
unfolding field_expression multiple_fields_sql join
field_expression-columns info m [] e h =
    rw (e, mapping_texts-text info.data_type (m ∷ []) h) (one_text m)
  where
    one_text :
        (m : FieldMapping)
        → coalesced_or_first (mixed_texts (m ∷ []) (mapping_text info.data_type m ∷ []))
          ≡ ok (property_sql (create_property_access_node info.data_type m))
    one_text (simple x) = refl
    one_text (Metadata.json j p) = refl
field_expression-columns info m (k ∷ ms) e h =
    rw (e, mapping_texts-text info.data_type (m ∷ k ∷ ms) h)
      (coalesced_texts _ (any is_json_mapping (m ∷ k ∷ ms)) (any_json info.data_type (m ∷ k ∷ ms)))
  where
    as_texts : List String
    as_texts = map (mapping_text info.data_type) (m ∷ k ∷ ms)

    fields : Bool → List String
    fields b = field_texts b info.data_type (m ∷ k ∷ ms)

    coalesced_texts :
        (a b : Bool)
        → a ≡ b
        → coalesced_or_first
            (if b && leb 2 (length as_texts) then to_text (m ∷ k ∷ ms) as_texts else as_texts)
          ≡ ok (coalesced (fields a))
    coalesced_texts true true q =
        ap (λ c. coalesced_or_first (if c then to_text (m ∷ k ∷ ms) as_texts else as_texts))
          (at_least_two (length (map (mapping_text info.data_type) ms)))
        ∙ ap coalesced_or_first (to_text-field_texts info.data_type (m ∷ k ∷ ms))
    coalesced_texts false false q =
        ap coalesced_or_first (plain-field_texts info.data_type (m ∷ k ∷ ms))
    coalesced_texts true false q = absurd (cc)
    coalesced_texts false true q = absurd (cc)
