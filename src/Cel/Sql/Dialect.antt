-- ===== src/Cel/Sql/Dialect.antt =====
-- src/repositories/cel_to_sql/sql_providers/postgresql.py and base.py: the SQL texts of constants,
-- columns and casts. `literal_proc` is SQLAlchemy's literal processor, `parse_uuid` is `str(UUID(…))`
-- and `format_date` is `strftime`.
use keep_api_gateway.Prelude.{
  String, ◌⧺◌, ◌==◌, true, false, Option, none, some, List, [], ◌∷◌, map, join, decimal, Result, ok,
  err, if◌then◌else◌,
}
use keep_api_gateway.Cel.Ast.{
  Value, null, bool, str, int, float, datetime, DataType, string, uuid, integer, float_type,
  datetime_type, boolean, null_type, Property, column, Node, constant, Operand, one,
}
use keep_api_gateway.Cel.Ast

-- The exceptions by their class.
pub data SqlError : Type 0 where
  not_implemented value_error attribute_error index_error : SqlError

abbrev pub Sql : Type 0
Sql = Result SqlError String

-- `str(value)`
abbrev pub str_of : Value → String
str_of null = "None"
str_of (bool true) = "True"
str_of (bool false) = "False"
str_of (str s) = s
str_of (int true n) = "-" ⧺ decimal n
str_of (int false n) = decimal n
str_of (float r) = r
str_of (datetime r) = r

-- `f"'{item}'"`
abbrev pub in_quotes : String → String
in_quotes item = "'" ⧺ (item ⧺ "'")

abbrev pub in_double_quotes : String → String
in_double_quotes item = "\"" ⧺ (item ⧺ "\"")

-- All but the last of a list that is not empty, and the last.
abbrev pub init_of : String → List String → List String
init_of x [] = []
init_of x (y ∷ ys) = x ∷ init_of y ys

abbrev pub last_of : String → List String → String
last_of x [] = x
last_of x (y ∷ ys) = last_of y ys

-- `json_extract_as_text`
unfoldable pub json_extract_as_text : String → List String → String
json_extract_as_text name path =
    "("
    ⧺ (join " -> " (init_of name (map in_quotes path))
        ⧺ (") ->> " ⧺ last_of name (map in_quotes path)))

-- `_json_contains_path`
unfoldable pub json_contains_path : String → List String → String
json_contains_path name path =
    "JSONB_PATH_EXISTS("
    ⧺ (name ⧺ ("::JSONB, " ⧺ (("'" ⧺ (("$." ⧺ join "." (map in_double_quotes path)) ⧺ "'")) ⧺ ")")))

abbrev pub boolean_cast : String → String
boolean_cast e =
    "CASE WHEN LOWER("
    ⧺ (e
        ⧺ (") = 'true' THEN true WHEN LOWER("
            ⧺ (e
                ⧺ (") = 'false' THEN false WHEN "
                    ⧺ (e
                        ⧺ (" ~ '^[-+]?[0-9]*\\.?[0-9]+$' THEN CAST("
                            ⧺ (e
                                ⧺ (" AS FLOAT) >= 1 WHEN LOWER("
                                    ⧺ (e ⧺ ") != '' THEN true ELSE false END")))))))))

abbrev pub cast_to : String → String → String
cast_to e type_name = "(" ⧺ (e ⧺ type_name)

-- `cast`
unfoldable pub cast : String → Option DataType → Sql
cast e (some string) = ok (cast_to e ")::TEXT")
cast e (some integer) = ok (cast_to e ")::FLOAT")
cast e (some float_type) = ok (cast_to e ")::FLOAT")
cast e (some null_type) = ok e
cast e (some datetime_type) = ok (cast_to e ")::TIMESTAMP")
cast e (some boolean) = ok (boolean_cast e)
cast e _ = err value_error

-- `_visit_property_access_node`
abbrev pub property_sql : Property → String
property_sql (column path t) = join "." path
property_sql (Ast.json name path t) = json_extract_as_text name path

-- The end of `_build_sql_filter`: an empty text counts as no result.
abbrev pub not_empty : String → Sql
not_empty s = if s == "" then err not_implemented else ok s

-- `_visit_equal` and `_visit_not_equal`
abbrev pub visit_equal : String → String → String
visit_equal f s = if s == "NULL" then f ⧺ " IS NULL" else f ⧺ (" = " ⧺ s)

abbrev pub visit_not_equal : String → String → String
visit_not_equal f s = if s == "NULL" then f ⧺ " IS NOT NULL" else f ⧺ (" != " ⧺ s)

abbrev pub visit_logical_or : String → String → String
visit_logical_or l r = "(" ⧺ (l ⧺ (" OR " ⧺ (r ⧺ ")")))

abbrev pub visit_logical_and : String → String → String
visit_logical_and l r = "(" ⧺ (l ⧺ (" AND " ⧺ (r ⧺ ")")))

-- `text[:-1]` and `text[1:-1]`
unfoldable pub drop_last : String → String
drop_last String.[] = ""
drop_last (String.◌∷◌ c String.[]) = ""
drop_last (String.◌∷◌ c (String.◌∷◌ d s)) = String.◌∷◌ c (drop_last (String.◌∷◌ d s))

unfoldable pub inside_quotes : String → String
unfolding drop_last
inside_quotes String.[] = ""
inside_quotes (String.◌∷◌ c s) = drop_last s

module _ (literal_proc : String → String) (parse_uuid : String → Option String)
    (format_date : String → String) where
  -- `literal_proc` of the provider, on any value
  abbrev pub literal_of : Value → String
  literal_of (str s) = literal_proc s
  literal_of v = in_quotes (str_of v)

  abbrev pub constant_sql : Value → String
  constant_sql null = "NULL"
  constant_sql (str s) = literal_proc s
  constant_sql (bool true) = "true"
  constant_sql (bool false) = "false"
  constant_sql (int negative n) = str_of (int negative n)
  constant_sql (float r) = r
  constant_sql (datetime r) = "CAST(" ⧺ (literal_proc (format_date r) ⧺ " as TIMESTAMP)")

  abbrev pub uuid_or : Value → Option String → Value
  uuid_or v none = v
  uuid_or v (some u) = str u

  -- `_visit_constant_node`
  unfoldable pub visit_constant_node : Value → Option DataType → String
  visit_constant_node v (some uuid) = constant_sql (uuid_or v (parse_uuid (str_of v)))
  visit_constant_node v _ = constant_sql v

  -- The methods `contains`, `startsWith` and `endsWith`
  abbrev pub visit_like : (before after : String) → String → Operand → Sql
  visit_like before after f (one (constant v)) = ok (
      f
      ⧺ (" IS NOT NULL AND "
          ⧺ (f ⧺ (" ILIKE " ⧺ ("'" ⧺ ((before ⧺ (inside_quotes (literal_of v) ⧺ after)) ⧺ "'"))))))
  visit_like before after f _ = err attribute_error

  -- `_visit_equal_for_array_datatype`
  abbrev pub array_element : String → String → Value → String
  array_element prop element null =
      "("
      ⧺ (prop
          ⧺ ("::jsonb @> '[null]' OR "
              ⧺ (prop ⧺ (" IS NULL OR jsonb_array_length(" ⧺ (prop ⧺ "::jsonb) = 0)")))))
  array_element prop element (str s) =
      prop ⧺ ("::jsonb @> " ⧺ ("'" ⧺ (("[\"" ⧺ (inside_quotes element ⧺ "\"]")) ⧺ "'")))
  array_element prop element v =
      prop ⧺ ("::jsonb @> " ⧺ ("'" ⧺ (("[\"" ⧺ (element ⧺ "\"]")) ⧺ "'")))

  abbrev pub equal_for_array : Property → Operand → Sql
  equal_for_array p (one (constant v)) =
      ok (array_element (property_sql p) (visit_constant_node v none) v)
  equal_for_array p _ = err not_implemented
