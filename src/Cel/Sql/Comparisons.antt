-- ===== src/Cel/Sql/Comparisons.antt =====
-- The SQL of comparisons with one text or another.
use keep_api_gateway.Prelude.{
  String, ◌==◌, eq_iff, Bool, true, false, Option, none, some, List, [], ◌∷◌, ◌≡◌, refl, ap, sym,
  ◌∙◌, map, All, any, if◌then◌else◌,
}
use keep_api_gateway.Cel.Ast.{
  ComparisonNodeOperator, lt, le, gt, ge, eq, ne, is_in, contains, starts_with, ends_with, DataType,
  Property,
}
use keep_api_gateway.Cel.Sql.Scan.{outside, place, bare, begins_plain, no_quote, bare-no_quote}
use keep_api_gateway.Cel.Sql.Alike.{
  Alike, AlikeSql, AreAlike, no_quote-Alike, trail-Alike, glue-Alike, wrap-Alike, join-Alike,
}
use keep_api_gateway.Cel.Sql.Dialect.{Sql, not_empty, visit_equal, visit_not_equal}
use keep_api_gateway.Cel.Sql.Texts.{CleanProperty, property_sql-IsAlike, cast-AlikeSql}
use keep_api_gateway.Cel.Sql.Operands.{
  is_json, field_sql, coalesced, multiple_fields_sql, cast_if, cast_first, compare_sql, is_known,
}

bool_path : (b c : Bool) → (b ≡ true → c ≡ true) → (c ≡ true → b ≡ true) → b ≡ c
bool_path true true f g = refl
bool_path true false f g = sym (f refl)
bool_path false true f g = g refl
bool_path false false f g = refl

recognized :
    (s t x : String)
    → bare outside s ≡ bare outside t
    → bare outside x ≡ x
    → no_quote x ≡ true
    → (s == x) ≡ true
    → (t == x) ≡ true
recognized s t x a p h e =
    (eq_iff t x).1 (bare-no_quote t x (sym a ∙ ap (bare outside) ((eq_iff s x).0 e) ∙ p) h)

-- A fixed text without quotes is recognized alike.
test-Alike :
    (s t x : String) → Alike s t → bare outside x ≡ x → no_quote x ≡ true → (s == x) ≡ (t == x)
test-Alike s t x a p h =
    bool_path (s == x) (t == x) (recognized s t x a.same p h) (recognized t s x (sym a.same) p h)

if-AlikeSql :
    (b c : Bool) (r r' s s' : Sql)
    → b ≡ c
    → AlikeSql r r'
    → AlikeSql s s'
    → AlikeSql (if b then r else s) (if c then r' else s')
if-AlikeSql true true r r' s s' e a a' = a
if-AlikeSql true false r r' s s' e a a' = absurd (cc)
if-AlikeSql false true r r' s s' e a a' = absurd (cc)
if-AlikeSql false false r r' s s' e a a' = a'

if-Alike :
    (b c : Bool) (r r' s s' : String)
    → b ≡ c
    → Alike r r'
    → Alike s s'
    → Alike (if b then r else s) (if c then r' else s')
if-Alike true true r r' s s' e a a' = a
if-Alike true false r r' s s' e a a' = absurd (cc)
if-Alike false true r r' s s' e a a' = absurd (cc)
if-Alike false false r r' s s' e a a' = a'

pub not_empty-AlikeSql : (s t : String) → Alike s t → AlikeSql (not_empty s) (not_empty t)
unfolding bare no_quote
not_empty-AlikeSql s t a =
    if-AlikeSql (s == "") (t == "") _ _ _ _ (test-Alike s t "" a refl refl) refl a

visit_equal-Alike :
    (f g s t : String) → Alike f g → Alike s t → Alike (visit_equal f s) (visit_equal g t)
unfolding bare no_quote place begins_plain
visit_equal-Alike f g s t a b =
    if-Alike (s == "NULL") (t == "NULL") _ _ _ _ (test-Alike s t "NULL" b refl refl)
      (trail-Alike f g " IS NULL" (refl, refl) a) (glue-Alike f g " = " s t (refl, refl) a b)

visit_not_equal-Alike :
    (f g s t : String) → Alike f g → Alike s t → Alike (visit_not_equal f s) (visit_not_equal g t)
unfolding bare no_quote place begins_plain
visit_not_equal-Alike f g s t a b =
    if-Alike (s == "NULL") (t == "NULL") _ _ _ _ (test-Alike s t "NULL" b refl refl)
      (trail-Alike f g " IS NOT NULL" (refl, refl) a) (glue-Alike f g " != " s t (refl, refl) a b)

pub visit_is_null-Alike :
    (f g : String) → Alike f g → Alike (visit_equal f "NULL") (visit_equal g "NULL")
unfolding no_quote
visit_is_null-Alike f g a = visit_equal-Alike f g "NULL" "NULL" a (no_quote-Alike "NULL" refl)

pub compare_sql-AlikeSql :
    (op : ComparisonNodeOperator) (f g s t : String)
    → Alike f g
    → Alike s t
    → AlikeSql (compare_sql op f s) (compare_sql op g t)
unfolding place begins_plain
compare_sql-AlikeSql eq f g s t a b = visit_equal-Alike f g s t a b
compare_sql-AlikeSql ne f g s t a b = visit_not_equal-Alike f g s t a b
compare_sql-AlikeSql gt f g s t a b = glue-Alike f g " > " s t (refl, refl) a b
compare_sql-AlikeSql ge f g s t a b = glue-Alike f g " >= " s t (refl, refl) a b
compare_sql-AlikeSql lt f g s t a b = glue-Alike f g " < " s t (refl, refl) a b
compare_sql-AlikeSql le f g s t a b = glue-Alike f g " <= " s t (refl, refl) a b
compare_sql-AlikeSql is_in f g s t a b = refl
compare_sql-AlikeSql contains f g s t a b = refl
compare_sql-AlikeSql starts_with f g s t a b = refl
compare_sql-AlikeSql ends_with f g s t a b = refl

pub cast_if-AlikeSql :
    (b : Bool) (f g : String) (t : Option DataType)
    → Alike f g
    → AlikeSql (cast_if b f t) (cast_if b g t)
cast_if-AlikeSql true f g t a = cast-AlikeSql t f g a
cast_if-AlikeSql false f g t a = a

pub cast_first-AlikeSql :
    (force : Bool) (t u : Option DataType) (f g : String)
    → Alike f g
    → AlikeSql (cast_first force t u f) (cast_first force t u g)
cast_first-AlikeSql true t u f g a = cast-AlikeSql u f g a
cast_first-AlikeSql false (some t) u f g a = a
cast_first-AlikeSql false none u f g a = cast_if-AlikeSql (is_known u) f g u a

-- The fields of a property.
field-Alike : (b : Bool) (p : Property) → CleanProperty p → Alike (field_sql b p) (field_sql b p)
unfolding place begins_plain
field-Alike false p c = property_sql-IsAlike p c
field-Alike true p c =
    if-Alike (is_json p) (is_json p) _ _ _ _ refl (property_sql-IsAlike p c)
      (wrap-Alike "CAST(" " AS TEXT)" _ _ refl (refl, refl) (property_sql-IsAlike p c))

fields-AreAlike :
    (b : Bool) (ps : List Property)
    → All CleanProperty ps
    → AreAlike (map (field_sql b) ps) (map (field_sql b) ps)
fields-AreAlike b [] c = tt
fields-AreAlike b (p ∷ ps) c = (field-Alike b p c.0, fields-AreAlike b ps c.1)

coalesced-Alike : (ss ts : List String) → AreAlike ss ts → Alike (coalesced ss) (coalesced ts)
unfolding place begins_plain
coalesced-Alike [] [] a =
    wrap-Alike "COALESCE(" ")" _ _ refl (refl, refl) (join-Alike ", " [] [] (refl, refl) a)
coalesced-Alike [] (t ∷ ts) a = absurd a
coalesced-Alike (s ∷ ss) [] a = absurd a
coalesced-Alike (s ∷ []) (t ∷ []) a = a.0
coalesced-Alike (s ∷ []) (t ∷ u ∷ ts) a = absurd a.1
coalesced-Alike (s ∷ u ∷ ss) (t ∷ []) a = absurd a.1
coalesced-Alike (s ∷ u ∷ ss) (t ∷ v ∷ ts) a =
    wrap-Alike "COALESCE(" ")" _ _ refl (refl, refl)
      (join-Alike ", " (s ∷ u ∷ ss) (t ∷ v ∷ ts) (refl, refl) a)

pub multiple_fields_sql-Alike :
    (ps : List Property)
    → All CleanProperty ps
    → Alike (multiple_fields_sql ps) (multiple_fields_sql ps)
unfolding multiple_fields_sql
multiple_fields_sql-Alike ps c = coalesced-Alike _ _ (fields-AreAlike (any is_json ps) ps c)
