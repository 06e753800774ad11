-- ===== src/Cel/Validate/Ranges.antt =====
-- Where the diagnostics of a filter point to.
use keep_api_gateway.Prelude.{
  ℕ, zero, suc, ◌+◌, ◌≤◌, ◌<◌, String, Bool, true, false, nat_eq, Option, none, some, List, [], ◌∷◌,
  All, length, split, split-pos, Result, ok, err, ◌>>=◌, ◌≡◌, refl, arith, ◌⊎◌, inl, inr,
  if◌then◌else◌,
}
use keep_api_gateway.Cel.Ast.{Node, is_boolean_filter_node}
use keep_api_gateway.Cel.Mapper.{MappingError, missing_mapping, not_supported}
use keep_api_gateway.Cel.Sql.Dialect.{
  SqlError, not_implemented, value_error, attribute_error, index_error,
}
use keep_api_gateway.Cel.Convert
use keep_api_gateway.Cel.Convert.{
  ParseError, ConvertError, rejected, mapping_leak, building_leak, CelToSqlException,
  CelDiagnosticCode, expected_boolean, CelToSqlResult, at_point, nowhere, next_column,
  whole_expression, last_line, line_count, split_lines, parse_failure, is_logical, not_boolean,
  mapped, built, built_filter, converted, convert_to_sql_str_v2,
}
use keep_api_gateway.Cel.Validate.Lines.{split-filled, split_lines-filled}
use keep_api_gateway.Cel.Validate.{
  CelDiagnosticRange, CelDiagnostic, accepted, refused, or_else, range_from_converter_error,
  point_range, is_blank, whole_expression_range, event_verdict,
}

-- A range ends after it starts: as its end is not part of it, it holds a character at least.
abbrev pub IsOrderedRange : Option CelDiagnosticRange → Type 0
IsOrderedRange none = Unit
IsOrderedRange (some r) =
    (r.start_line < r.end_line) ⊎ ((r.start_line ≡ r.end_line) × (r.start_column < r.end_column))

abbrev pub IsOrdered : CelDiagnostic → Type 0
IsOrdered d = IsOrderedRange d.range

-- From the start of a text to the end of its last line, when a text of one line has a character.
whole_range : (n c : ℕ) → 1 ≤ n → (1 ≡ n → 1 ≤ c) → (1 < n) ⊎ ((1 ≡ n) × (1 < c + 1))
whole_range zero c h k = absurd (omega arith)
whole_range (suc zero) c h k = inr (refl, omega (arith, k refl))
whole_range (suc (suc n)) c h k = inl (omega arith)

line_count-pos : (ls : List String) → 1 ≤ line_count ls
line_count-pos [] = omega arith
line_count-pos (l ∷ ls) = omega arith

or_else_line : (n : ℕ) → n ≡ or_else (some n) n
or_else_line n = unchanged (nat_eq n 0)
  where
    unchanged : (b : Bool) → n ≡ (if b then n else n)
    unchanged true = refl
    unchanged false = refl

next_column-lt : (c : ℕ) → c < or_else (next_column (some c)) (c + 1)
next_column-lt zero = omega arith
next_column-lt (suc c) = ground arith

at_point-IsOrdered :
    (reason : CelDiagnosticCode) (line column : Option ℕ)
    → IsOrderedRange (range_from_converter_error (at_point reason line column))
at_point-IsOrdered reason none column = tt
at_point-IsOrdered reason (some l) none = tt
at_point-IsOrdered reason (some l) (some c) = inr (or_else_line l, next_column-lt c)

whole_expression-IsOrdered :
    (reason : CelDiagnosticCode) (cel : String)
    → is_blank cel ≡ false
    → IsOrderedRange (range_from_converter_error (whole_expression reason cel))
unfolding whole_expression
whole_expression-IsOrdered reason cel b =
    whole_lines (line_count (split_lines false cel)) _ (line_count-pos (split_lines false cel))
      (split_lines-filled false cel b)
  where
    whole_lines :
        (n c : ℕ)
        → 1 ≤ n
        → (1 ≡ n → 1 ≤ c)
        → (1 < or_else (some n) 1) ⊎ ((1 ≡ or_else (some n) 1) × (1 < or_else (some (c + 1)) 2))
    whole_lines zero c h k = absurd (omega arith)
    whole_lines (suc zero) c h k = inr (refl, ground (arith, k refl))
    whole_lines (suc (suc n)) c h k = inl (ground arith)

-- What the conversion rejects.
abbrev pub IsOrderedError : ConvertError → Type 0
IsOrderedError (rejected e) = IsOrderedRange (range_from_converter_error e)
IsOrderedError _ = Unit

abbrev pub IsOrderedResult {ℓ} : {A : Type ℓ} → Result ConvertError A → Type 0
IsOrderedResult (ok a) = Unit
IsOrderedResult (err e) = IsOrderedError e

pub bind-IsOrdered {ℓ κ} :
    {A : Type ℓ} {B : Type κ} (r : Result ConvertError A) (f : A → Result ConvertError B)
    → IsOrderedResult r
    → ((a : A) → IsOrderedResult (f a))
    → IsOrderedResult (r >>= f)
bind-IsOrdered (ok a) f h k = k a
bind-IsOrdered (err e) f h k = h

pub parsed-IsOrdered : (r : Result ParseError Node) → IsOrderedResult (Convert.parsed r)
parsed-IsOrdered (ok n) = tt
parsed-IsOrdered (err e) = by_class e.is_cel_parse_error
  where
    by_class :
        (b : Bool)
        → IsOrderedError (
            rejected (
              if b
              then at_point Convert.syntax_error e.line e.column
              else nowhere Convert.unsupported_expression))
    by_class true = at_point-IsOrdered Convert.syntax_error e.line e.column
    by_class false = tt

pub checked-IsOrdered :
    (cel : String) (n : Node) → is_blank cel ≡ false → IsOrderedResult (Convert.checked cel n)
checked-IsOrdered cel n filled = by_test (is_boolean_filter_node n) (is_logical n)
  where
    answer : Bool → Bool → Result ConvertError Node
    answer b l =
        if b
        then ok n
        else err (
            rejected
              (if l then nowhere expected_boolean else whole_expression expected_boolean cel))

    by_test : (b l : Bool) → IsOrderedResult (answer b l)
    by_test true l = tt
    by_test false true = tt
    by_test false false = whole_expression-IsOrdered expected_boolean cel filled

pub mapped-IsOrdered {ℓ} : {A : Type ℓ} (r : Result MappingError A) → IsOrderedResult (mapped r)
mapped-IsOrdered (ok a) = tt
mapped-IsOrdered (err (missing_mapping p)) = tt
mapped-IsOrdered (err (not_supported t)) = tt

pub built-IsOrdered {ℓ} : {A : Type ℓ} (r : Result SqlError A) → IsOrderedResult (built r)
built-IsOrdered (ok a) = tt
built-IsOrdered (err not_implemented) = tt
built-IsOrdered (err value_error) = tt
built-IsOrdered (err attribute_error) = tt
built-IsOrdered (err index_error) = tt

pub event_verdict-IsOrdered :
    (cel : String) (r : Result ParseError Node)
    → is_blank cel ≡ false
    → All IsOrdered (event_verdict cel r).diagnostics
unfolding whole_expression_range
event_verdict-IsOrdered cel (err e) filled = (point e.line e.column, tt)
  where
    point : (l c : Option ℕ) → IsOrderedRange (point_range l c)
    point none c = tt
    point (some l) none = tt
    point (some l) (some c) = inr (refl, omega arith)
event_verdict-IsOrdered cel (ok n) filled = by_test (is_boolean_filter_node n) (is_logical n)
  where
    by_test :
        (b l : Bool)
        → All IsOrdered
            (if b
              then accepted
              else refused (
                  record {
                    reason = expected_boolean;
                    range = if l then none else some (whole_expression_range cel);
                  }
                  ∷ [])).diagnostics
    by_test true l = tt
    by_test false true = (tt, tt)
    by_test false false = (
      whole_range (length (split b'\n' cel)) _ (split-pos b'\n' cel) (split-filled cel filled),
      tt,
    )
