-- ===== src/Cel/Sql/Texts.antt =====
-- The filter with other texts in the place of the user's, and the SQL of its constants and columns.
use text.Mathlib.TextLemmas.{nil-append, cons-append}
use keep_api_gateway.Prelude.{
  String, ◌⧺◌, true, Option, none, some, List, [], ◌∷◌, ◌≡◌, refl, ap, sym, ◌∙◌, map, join, All,
}
use keep_api_gateway.Cel.Ast.{
  Value, null, bool, str, int, float, datetime, DataType, string, uuid, integer, float_type,
  datetime_type, boolean, object, array, null_type, Property, column, Node, constant, parenthesis,
  logical, comparison, unary, access, multiple_fields, Operand, absent, foreign, one, many, Nodes,
  nil, cons,
}
use keep_api_gateway.Cel.Ast
use keep_api_gateway.Cel.Sql.Scan.{
  IsEnded, outside, place, bare, begins_plain, no_quote, IsSaid, no_quote-IsSaid, append-IsSaid,
}
use keep_api_gateway.Cel.Sql.Alike.{
  Alike, AlikeSql, AreAlike, same-Alike, no_quote-Alike, quoted-Alike, lead-Alike, trail-Alike,
  glue-Alike, wrap-Alike, join-Alike,
}
use keep_api_gateway.Cel.Sql.Dialect.{
  str_of, in_quotes, in_double_quotes, init_of, last_of, json_extract_as_text, json_contains_path,
  cast, property_sql, drop_last, inside_quotes,
}

abbrev pub value_with : (String → String) → Value → Value
value_with f (str s) = str (f s)
value_with f v = v

abbrev mutual
  pub node_with : (String → String) → Node → Node
  node_with f (constant v) = constant (value_with f v)
  node_with f (parenthesis e) = parenthesis (node_with f e)
  node_with f (logical l op r) = logical (node_with f l) op (node_with f r)
  node_with f (comparison l op s) = comparison (node_with f l) op (operand_with f s)
  node_with f (unary op x) = unary op (operand_with f x)
  node_with f (access p) = access p
  node_with f (multiple_fields ps t) = multiple_fields ps t

  pub operand_with : (String → String) → Operand → Operand
  operand_with f absent = absent
  operand_with f (foreign t) = foreign t
  operand_with f (one n) = one (node_with f n)
  operand_with f (many ns) = many (nodes_with f ns)

  pub nodes_with : (String → String) → Nodes → Nodes
  nodes_with f nil = nil
  nodes_with f (cons n ns) = cons (node_with f n) (nodes_with f ns)

-- The numbers and dates are spelled without quotes.
abbrev pub CleanValue : Value → Type 0
CleanValue (int negative n) = no_quote (str_of (int negative n)) ≡ true
CleanValue (float r) = no_quote r ≡ true
CleanValue (datetime r) = no_quote r ≡ true
CleanValue _ = Unit

-- An element of an array that is no date.
abbrev pub CleanElement : Value → Type 0
CleanElement (datetime r) = ⊥
CleanElement v = CleanValue v

-- No date among the values that are compared with an array.
abbrev pub CleanElements : Option DataType → Nodes → Type 0
CleanElements (some array) nil = Unit
CleanElements (some array) (cons (constant v) ns) = CleanElement v × CleanElements (some array) ns
CleanElements (some array) (cons n ns) = CleanElements (some array) ns
CleanElements t ns = Unit

abbrev pub CleanSecond : Option DataType → Operand → Type 0
CleanSecond t (one n) = CleanElements t (cons n nil)
CleanSecond t (many ns) = CleanElements t ns
CleanSecond t s = Unit

-- The columns end outside of literals, and the configured paths into JSON have no quotes.
abbrev pub CleanProperty : Property → Type 0
CleanProperty (column path t) = IsEnded (place outside (join "." path))
CleanProperty (Ast.json name path t) =
    (no_quote name ≡ true) × All (λ item. no_quote item ≡ true) path

drop_last-append : (s : String) → drop_last (s ⧺ "'") ≡ s
unfolding drop_last
drop_last-append String.[] = refl
drop_last-append (String.◌∷◌ c String.[]) = ap drop_last (cons-append c "" "'") ∙ refl
drop_last-append (String.◌∷◌ c (String.◌∷◌ d s)) =
    ap drop_last (cons-append c (String.◌∷◌ d s) "'" ∙ ap (String.◌∷◌ c) (cons-append d s "'"))
    ∙ ap (String.◌∷◌ c)
        (ap drop_last (sym (cons-append d s "'")) ∙ drop_last-append (String.◌∷◌ d s))

pub inside_in_quotes : (s : String) → inside_quotes (in_quotes s) ≡ s
unfolding inside_quotes
inside_in_quotes s =
    ap inside_quotes (cons-append _ "" (s ⧺ "'"))
    ∙ ap drop_last (nil-append (s ⧺ "'"))
    ∙ drop_last-append s

-- The JSON path, and the texts of a property.
same-AreAlike : (ss : List String) → All (λ s. Alike s s) ss → AreAlike ss ss
same-AreAlike [] a = tt
same-AreAlike (s ∷ ss) a = (a.0, same-AreAlike ss a.1)

abbrev IsAlike : String → Type 0
IsAlike s = Alike s s

in_quotes-IsAlike : (s : String) → no_quote s ≡ true → IsAlike (in_quotes s)
in_quotes-IsAlike s h = quoted-Alike s s (no_quote-IsSaid s h) (no_quote-IsSaid s h)

path-IsAlike :
    (path : List String)
    → All (λ item. no_quote item ≡ true) path
    → All IsAlike (map in_quotes path)
path-IsAlike [] h = tt
path-IsAlike (x ∷ path) h = (in_quotes-IsAlike x h.0, path-IsAlike path h.1)

init-IsAlike :
    (x : String) (xs : List String) → IsAlike x → All IsAlike xs → All IsAlike (init_of x xs)
init-IsAlike x [] a h = tt
init-IsAlike x (y ∷ ys) a h = (a, init-IsAlike y ys h.0 h.1)

last-IsAlike : (x : String) (xs : List String) → IsAlike x → All IsAlike xs → IsAlike (last_of x xs)
last-IsAlike x [] a h = a
last-IsAlike x (y ∷ ys) a h = last-IsAlike y ys h.0 h.1

pub property_sql-IsAlike : (p : Property) → CleanProperty p → IsAlike (property_sql p)
unfolding json_extract_as_text place begins_plain
property_sql-IsAlike (column path t) h = same-Alike (join "." path) h
property_sql-IsAlike (Ast.json name path t) h =
    let parts = path-IsAlike path h.1 in
    let first = no_quote-Alike name h.0 in
    lead-Alike "(" _ _ refl (
      glue-Alike _ _ ") ->> " _ _ (refl, refl)
        (join-Alike " -> " _ _ (refl, refl)
          (same-AreAlike _ (init-IsAlike name (map in_quotes path) first parts)))
        (last-IsAlike name (map in_quotes path) first parts))

item-IsSaid : (x : String) → no_quote x ≡ true → IsSaid (in_double_quotes x)
unfolding no_quote
item-IsSaid x h =
    append-IsSaid "\"" _ (no_quote-IsSaid "\"" refl)
      (append-IsSaid x "\"" (no_quote-IsSaid x h) (no_quote-IsSaid "\"" refl))

join-IsSaid :
    (path : List String)
    → All (λ item. no_quote item ≡ true) path
    → IsSaid (join "." (map in_double_quotes path))
unfolding join place bare no_quote
join-IsSaid [] h = record { stays = refl; hidden = refl }
join-IsSaid (x ∷ []) h = item-IsSaid x h.0
join-IsSaid (x ∷ y ∷ path) h =
    append-IsSaid _ _ (item-IsSaid x h.0)
      (append-IsSaid "." _ (no_quote-IsSaid "." refl) (join-IsSaid (y ∷ path) h.1))

pub contains_path-IsAlike :
    (name : String) (path : List String)
    → CleanProperty (Ast.json name path none)
    → IsAlike (json_contains_path name path)
unfolding json_contains_path place begins_plain no_quote
contains_path-IsAlike name path h =
    let said = append-IsSaid "$." _ (no_quote-IsSaid "$." refl) (join-IsSaid path h.1) in
    lead-Alike "JSONB_PATH_EXISTS(" _ _ refl (
      glue-Alike _ _ "::JSONB, " _ _ (refl, refl) (no_quote-Alike name h.0)
        (trail-Alike _ _ ")" (refl, refl) (quoted-Alike _ _ said said)))

pub cast-AlikeSql :
    (t : Option DataType) (r s : String) → Alike r s → AlikeSql (cast r t) (cast s t)
unfolding cast place begins_plain
cast-AlikeSql none r s a = refl
cast-AlikeSql (some string) r s a = wrap-Alike "(" ")::TEXT" r s refl (refl, refl) a
cast-AlikeSql (some integer) r s a = wrap-Alike "(" ")::FLOAT" r s refl (refl, refl) a
cast-AlikeSql (some float_type) r s a = wrap-Alike "(" ")::FLOAT" r s refl (refl, refl) a
cast-AlikeSql (some null_type) r s a = a
cast-AlikeSql (some datetime_type) r s a = wrap-Alike "(" ")::TIMESTAMP" r s refl (refl, refl) a
cast-AlikeSql (some boolean) r s a = lead-Alike "CASE WHEN LOWER(" _ _ refl (
    glue-Alike r s ") = 'true' THEN true WHEN LOWER(" _ _ (refl, refl) a
      (glue-Alike r s ") = 'false' THEN false WHEN " _ _ (refl, refl) a
        (glue-Alike r s " ~ '^[-+]?[0-9]*\\.?[0-9]+$' THEN CAST(" _ _ (refl, refl) a
          (glue-Alike r s " AS FLOAT) >= 1 WHEN LOWER(" _ _ (refl, refl) a
            (trail-Alike r s ") != '' THEN true ELSE false END" (refl, refl) a)))))
cast-AlikeSql (some uuid) r s a = refl
cast-AlikeSql (some object) r s a = refl
cast-AlikeSql (some array) r s a = refl
