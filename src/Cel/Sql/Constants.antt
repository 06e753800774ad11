-- ===== src/Cel/Sql/Constants.antt =====
-- The SQL of constants with one text or another.
use keep_api_gateway.Prelude.{
  subst, String, ◌⧺◌, true, false, Option, none, some, ◌≡◌, refl, ap, sym, ◌∙◌,
}
use keep_api_gateway.Cel.Ast.{
  Value, null, bool, str, int, float, datetime, DataType, string, uuid, Property, constant, one,
}
use keep_api_gateway.Cel.Sql.Scan.{
  place, begins_plain, no_quote, IsSaid, no_quote-IsSaid, append-IsSaid,
}
use keep_api_gateway.Cel.Sql.Alike.{
  Alike, AlikeSql, no_quote-Alike, quoted-Alike, lead-Alike, trail-Alike, glue-Alike, wrap-Alike,
}
use keep_api_gateway.Cel.Sql.Dialect.{
  str_of, in_quotes, property_sql, inside_quotes, constant_sql, literal_of, uuid_or,
  visit_constant_node, visit_like, array_element, equal_for_array,
}
use keep_api_gateway.Cel.Sql.Texts.{
  value_with, CleanValue, CleanProperty, CleanElement, inside_in_quotes, property_sql-IsAlike,
}

-- A literal is what the escaped text says, between quotes.
pub record IsLiteral (literal_proc : String → String) : Type 0 where
  pub escape : String → String
  pub quotes : (s : String) → literal_proc s ≡ in_quotes (escape s)
  pub said : (s : String) → IsSaid (escape s)

module _ (literal_proc : String → String) (h : IsLiteral literal_proc)
    (parse_uuid : String → Option String) (format_date : String → String)
    (f : String → String) where
  literal-Alike : (s t : String) → Alike (literal_proc s) (literal_proc t)
  literal-Alike s t =
      subst (λ x. Alike x (literal_proc t)) (sym (h.quotes s))
        (subst (λ x. Alike (in_quotes (h.escape s)) x) (sym (h.quotes t))
          (quoted-Alike (h.escape s) (h.escape t) (h.said s) (h.said t)))

  abbrev constant_of : Value → String
  constant_of = constant_sql literal_proc parse_uuid format_date

  constant-Alike : (v : Value) → CleanValue v → Alike (constant_of v) (constant_of (value_with f v))
  unfolding no_quote place begins_plain
  constant-Alike null c = no_quote-Alike "NULL" refl
  constant-Alike (bool true) c = no_quote-Alike "true" refl
  constant-Alike (bool false) c = no_quote-Alike "false" refl
  constant-Alike (str s) c = literal-Alike s (f s)
  constant-Alike (int negative n) c = no_quote-Alike _ c
  constant-Alike (float r) c = no_quote-Alike r c
  constant-Alike (datetime r) c =
      wrap-Alike "CAST(" " as TIMESTAMP)" _ _ refl (refl, refl)
        (literal-Alike (format_date r) (format_date r))

  uuid-Alike :
      (v : Value) (o : Option String)
      → Alike (constant_of v) (constant_of v)
      → Alike
          (constant_of (uuid_or literal_proc parse_uuid format_date v o))
          (constant_of (uuid_or literal_proc parse_uuid format_date v o))
  uuid-Alike v none a = a
  uuid-Alike v (some u) a = literal-Alike u u

  text_uuid-Alike :
      (s t : String) (o p : Option String)
      → Alike
          (constant_of (uuid_or literal_proc parse_uuid format_date (str s) o))
          (constant_of (uuid_or literal_proc parse_uuid format_date (str t) p))
  text_uuid-Alike s t none none = literal-Alike s t
  text_uuid-Alike s t none (some q) = literal-Alike s q
  text_uuid-Alike s t (some u) none = literal-Alike u t
  text_uuid-Alike s t (some u) (some q) = literal-Alike u q

  uuid_constant-Alike :
      (v : Value)
      → CleanValue v
      → Alike
          (constant_of (uuid_or literal_proc parse_uuid format_date v (parse_uuid (str_of v))))
          (constant_of (
            uuid_or literal_proc parse_uuid format_date
              (value_with f v)
              (parse_uuid (str_of (value_with f v)))))
  uuid_constant-Alike (str s) c = text_uuid-Alike s (f s) (parse_uuid s) (parse_uuid (f s))
  uuid_constant-Alike null c = uuid-Alike null _ (constant-Alike null c)
  uuid_constant-Alike (bool b) c = uuid-Alike (bool b) _ (constant-Alike (bool b) c)
  uuid_constant-Alike (int b n) c = uuid-Alike (int b n) _ (constant-Alike (int b n) c)
  uuid_constant-Alike (float r) c = uuid-Alike (float r) _ (constant-Alike (float r) c)
  uuid_constant-Alike (datetime r) c = uuid-Alike (datetime r) _ (constant-Alike (datetime r) c)

  abbrev constant_text : Value → Option DataType → String
  constant_text = visit_constant_node literal_proc parse_uuid format_date

  pub visit_constant_node-Alike :
      (v : Value) (t : Option DataType)
      → CleanValue v
      → Alike (constant_text v t) (constant_text (value_with f v) t)
  unfolding visit_constant_node
  visit_constant_node-Alike v (some uuid) c = uuid_constant-Alike v c
  visit_constant_node-Alike v none c = constant-Alike v c
  visit_constant_node-Alike v (some string) c = constant-Alike v c
  visit_constant_node-Alike v (some _) c = constant-Alike v c

  plain-IsSaid : (s : String) → no_quote s ≡ true → IsSaid (inside_quotes (in_quotes s))
  plain-IsSaid s c = subst IsSaid (sym (inside_in_quotes s)) (no_quote-IsSaid s c)

  with-CleanValue : (v : Value) → CleanValue v → CleanValue (value_with f v)
  with-CleanValue (str s) c = tt
  with-CleanValue null c = c
  with-CleanValue (bool b) c = c
  with-CleanValue (int b n) c = c
  with-CleanValue (float r) c = c
  with-CleanValue (datetime r) c = c

  -- What a constant says between quotes that are put around it.
  literal_of-IsSaid :
      (v : Value)
      → CleanValue v
      → IsSaid (inside_quotes (literal_of literal_proc parse_uuid format_date v))
  unfolding no_quote
  literal_of-IsSaid (str s) c =
      subst IsSaid (sym (ap inside_quotes (h.quotes s) ∙ inside_in_quotes (h.escape s))) (h.said s)
  literal_of-IsSaid null c = plain-IsSaid "None" refl
  literal_of-IsSaid (bool true) c = plain-IsSaid "True" refl
  literal_of-IsSaid (bool false) c = plain-IsSaid "False" refl
  literal_of-IsSaid (int b n) c = plain-IsSaid _ c
  literal_of-IsSaid (float r) c = plain-IsSaid r c
  literal_of-IsSaid (datetime r) c = plain-IsSaid r c

  pub like-Alike :
      (before after : String) (r s : String) (v : Value)
      → IsSaid before
      → IsSaid after
      → CleanValue v
      → Alike r s
      → AlikeSql
          (visit_like literal_proc parse_uuid format_date before after r (one (constant v)))
          (visit_like literal_proc parse_uuid format_date before after s
            (one (constant (value_with f v))))
  unfolding place begins_plain
  like-Alike before after r s v b e c a =
      glue-Alike r s " IS NOT NULL AND " _ _ (refl, refl) a
        (glue-Alike r s " ILIKE " _ _ (refl, refl) a
          (quoted-Alike _ _
            (append-IsSaid before _ b (append-IsSaid _ after (literal_of-IsSaid v c) e))
            (append-IsSaid before _ b (
              append-IsSaid _ after (literal_of-IsSaid (value_with f v) (with-CleanValue v c)) e))))

  element-IsSaid : (s : String) → IsSaid s → IsSaid ("[\"" ⧺ (s ⧺ "\"]"))
  unfolding no_quote
  element-IsSaid s e =
      append-IsSaid "[\"" _ (no_quote-IsSaid "[\"" refl)
        (append-IsSaid s "\"]" e (no_quote-IsSaid "\"]" refl))

  inside-IsSaid : (s : String) → IsSaid (inside_quotes (literal_proc s))
  inside-IsSaid s =
      subst IsSaid (sym (ap inside_quotes (h.quotes s) ∙ inside_in_quotes (h.escape s))) (h.said s)

  plain_element-Alike :
      (prop s : String)
      → Alike prop prop
      → no_quote s ≡ true
      → Alike
          (prop ⧺ ("::jsonb @> " ⧺ in_quotes ("[\"" ⧺ (s ⧺ "\"]"))))
          (prop ⧺ ("::jsonb @> " ⧺ in_quotes ("[\"" ⧺ (s ⧺ "\"]"))))
  unfolding place begins_plain
  plain_element-Alike prop s a c =
      let e = element-IsSaid s (no_quote-IsSaid s c) in
      glue-Alike prop prop "::jsonb @> " _ _ (refl, refl) a (quoted-Alike _ _ e e)

  element-Alike :
      (prop : String) (v : Value)
      → Alike prop prop
      → CleanElement v
      → Alike (array_element literal_proc parse_uuid format_date prop (constant_text v none) v) (
          array_element literal_proc parse_uuid format_date prop
            (constant_text (value_with f v) none)
            (value_with f v))
  unfolding visit_constant_node place begins_plain no_quote
  element-Alike prop null a c = lead-Alike "(" _ _ refl (
      glue-Alike prop prop "::jsonb @> '[null]' OR " _ _ (refl, refl) a
        (glue-Alike prop prop " IS NULL OR jsonb_array_length(" _ _ (refl, refl) a
          (trail-Alike prop prop "::jsonb) = 0)" (refl, refl) a)))
  element-Alike prop (str s) a c =
      glue-Alike prop prop "::jsonb @> " _ _ (refl, refl) a
        (quoted-Alike _ _ (element-IsSaid _ (inside-IsSaid s))
          (element-IsSaid _ (inside-IsSaid (f s))))
  element-Alike prop (bool true) a c = plain_element-Alike prop "true" a refl
  element-Alike prop (bool false) a c = plain_element-Alike prop "false" a refl
  element-Alike prop (int b n) a c = plain_element-Alike prop _ a c
  element-Alike prop (float r) a c = plain_element-Alike prop r a c
  element-Alike prop (datetime r) a c = absurd c

  pub equal_for_array-AlikeSql :
      (p : Property) (v : Value)
      → CleanProperty p
      → CleanElement v
      → AlikeSql
          (equal_for_array literal_proc parse_uuid format_date p (one (constant v)))
          (equal_for_array literal_proc parse_uuid format_date p (one (constant (value_with f v))))
  equal_for_array-AlikeSql p v c d = element-Alike (property_sql p) v (property_sql-IsAlike p c) d
