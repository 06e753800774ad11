-- ===== src/Cel/Metadata/Roundtrip.antt =====
-- A path that is written as one text is read back.
use Prim.Native.Char.{Char, code}
use Prim.Native.String
use Prim.Native.String.{char_at}
use text.Mathlib.TextLemmas.{
  nil-append, cons-append, append-nil, append_assoc, length-cons, length-append,
}
use keep_api_gateway.Prelude.{
  ℕ, zero, suc, ◌+◌, ◌*◌, ◌≤◌, String, ◌⧺◌, Bool, true, false, not, ◌&&◌, ◌==◌, join, List, [], ◌∷◌,
  All, length, ◌≡◌, refl, sym, ap, subst, ◌∙◌, arith, if◌then◌else◌,
}
use keep_api_gateway.Cel.Metadata.Paths.{
  before_if, break, is_dot, is_open, is_bracket, closed, after_first, extract, extract_fields,
  is_plain_char, is_plain, in_path, get_property_path_str,
}

-- No character of a text is one of those, and a text that is empty or begins with one of them.
unfoldable pub clear : (ℕ → Bool) → String → Bool
clear stop String.[] = true
clear stop (String.◌∷◌ c s) = not (stop (code c)) && clear stop s

unfoldable begins : (ℕ → Bool) → String → Bool
begins stop String.[] = true
begins stop (String.◌∷◌ c s) = stop (code c)

-- What may stand in a path: a text that is not empty, with no brackets.
abbrev pub IsItem : String → Type 0
IsItem item = ((item == "") ≡ false) × (clear is_bracket item ≡ true)

and_parts : (a b : Bool) → (a && b) ≡ true → (a ≡ true) × (b ≡ true)
and_parts true b h = (refl, h)
and_parts false b h = absurd (cc)

negated_false : (a : Bool) → not a ≡ true → a ≡ false
negated_false true h = absurd (cc)
negated_false false h = refl

break-begins : (stop : ℕ → Bool) (s : String) → begins stop s ≡ true → break stop s ≡ ("", s)
unfolding break begins
break-begins stop String.[] h = refl
break-begins stop (String.◌∷◌ c s) h = ap (λ b. before_if b c s (break stop s)) h

break-append :
    (stop : ℕ → Bool) (s rest : String)
    → clear stop s ≡ true
    → begins stop rest ≡ true
    → break stop (s ⧺ rest) ≡ (s, rest)
unfolding break clear
break-append stop String.[] rest h k = ap (break stop) (nil-append rest) ∙ break-begins stop rest k
break-append stop (String.◌∷◌ c s) rest h k =
    let parts = and_parts (not (stop (code c))) (clear stop s) h in
    ap (break stop) (cons-append c s rest)
    ∙ ap (λ b. before_if b c (s ⧺ rest) (break stop (s ⧺ rest)))
        (negated_false (stop (code c)) parts.0)
    ∙ ap (before_if false c (s ⧺ rest)) (break-append stop s rest parts.1 k)

plain_char-clear : (n : ℕ) → is_plain_char n ≡ true → (is_dot n ≡ false) × (is_open n ≡ false)
plain_char-clear n h = (ground arith, ground arith)

plain-clear : (s : String) → is_plain s ≡ true → clear is_dot s ≡ true
unfolding clear is_plain
plain-clear String.[] h = refl
plain-clear (String.◌∷◌ c s) h =
    let parts = and_parts (is_plain_char (code c)) (is_plain s) h in
    ap (λ b. not b && clear is_dot s) (plain_char-clear (code c) parts.0).0 ∙ plain-clear s parts.1

-- A step of the search, given both matches.
abbrev choose : ℕ → Char → String → String × String → String × String → List String
choose f c s group word =
    if is_open (code c) && closed group
    then group.0 ∷ extract f (after_first group.1)
    else if is_dot (code c)
    then extract f s
    else word.0 ∷ extract f word.1

extract-choose :
    (f : ℕ) (c : Char) (s : String)
    → extract (suc f) (String.◌∷◌ c s)
      ≡ choose f c s (break is_bracket s) (break is_dot (String.◌∷◌ c s))
unfolding extract
extract-choose f c s = refl

-- One item is read, whichever way it is written.
plain_item :
    (f : ℕ) (item rest : String)
    → (item == "") ≡ false
    → is_plain item ≡ true
    → begins is_dot rest ≡ true
    → extract (suc f) (item ⧺ rest) ≡ item ∷ extract f rest
unfolding is_plain
plain_item f String.[] rest e p b = absurd (cc)
plain_item f (String.◌∷◌ c s) rest e p b =
    let parts = and_parts (is_plain_char (code c)) (is_plain s) p in
    let word = break-append is_dot (String.◌∷◌ c s) rest (plain-clear (String.◌∷◌ c s) p) b in
    let k = plain_char-clear (code c) parts.0 in
    ap (extract (suc f)) (cons-append c s rest)
    ∙ extract-choose f c (s ⧺ rest)
    ∙ ap (choose f c (s ⧺ rest) (break is_bracket (s ⧺ rest)))
        (ap (break is_dot) (sym (cons-append c s rest)) ∙ word)
    ∙ rw (k.1, k.0) refl

abbrev opening : Char
opening = char_at "[" 0

abbrev closing : Char
closing = char_at "]" 0

abbrev dot : Char
dot = char_at "." 0

open_append : (s : String) → "[" ⧺ s ≡ String.◌∷◌ opening s
open_append s = cons-append opening "" s ∙ ap (String.◌∷◌ opening) (nil-append s)

close_append : (s : String) → "]" ⧺ s ≡ String.◌∷◌ closing s
close_append s = cons-append closing "" s ∙ ap (String.◌∷◌ closing) (nil-append s)

dot_append : (s : String) → "." ⧺ s ≡ String.◌∷◌ dot s
dot_append s = cons-append dot "" s ∙ ap (String.◌∷◌ dot) (nil-append s)

bracketed_item :
    (f : ℕ) (item rest : String)
    → IsItem item
    → extract (suc f) (("[" ⧺ (item ⧺ "]")) ⧺ rest) ≡ item ∷ extract f rest
unfolding begins
bracketed_item f item rest h =
    let group = break-append is_bracket item (String.◌∷◌ closing rest) h.1 refl in
    let inner = item ⧺ String.◌∷◌ closing rest in
    ap (extract (suc f)) (
      append_assoc "[" (item ⧺ "]") rest
      ∙ ap (λ s. "[" ⧺ s) (append_assoc item "]" rest ∙ ap (λ s. item ⧺ s) (close_append rest))
      ∙ open_append inner)
    ∙ extract-choose f opening inner
    ∙ ap (λ g. choose f opening inner g (break is_dot (String.◌∷◌ opening inner))) group
    ∙ rw (h.0) refl

read_item :
    (f : ℕ) (item rest : String)
    → IsItem item
    → begins is_dot rest ≡ true
    → extract (suc f) (in_path item ⧺ rest) ≡ item ∷ extract f rest
read_item f item rest h b = written (is_plain item) refl
  where
    written :
        (p : Bool)
        → is_plain item ≡ p
        → extract (suc f) ((if p then item else "[" ⧺ (item ⧺ "]")) ⧺ rest) ≡ item ∷ extract f rest
    written true e = plain_item f item rest h.0 e b
    written false e = bracketed_item f item rest h

skip_dot : (f : ℕ) (rest : String) → extract (suc f) ("." ⧺ rest) ≡ extract f rest
skip_dot f rest = ap (extract (suc f)) (dot_append rest) ∙ extract-choose f dot rest

-- A unit of fuel for each item and each dot.
extract-path :
    (path : List String) (f : ℕ)
    → All IsItem path
    → 2 * length path ≤ f + 1
    → extract f (get_property_path_str path) ≡ path
unfolding get_property_path_str join extract begins
extract-path [] f h k = refl
extract-path (item ∷ []) zero h k = absurd (omega arith)
extract-path (item ∷ []) (suc f) h k =
    ap (extract (suc f)) (sym (append-nil (in_path item))) ∙ read_item f item "" h.0 refl
extract-path (item ∷ next ∷ path) zero h k = absurd (omega arith)
extract-path (item ∷ next ∷ path) (suc zero) h k = absurd (omega arith)
extract-path (item ∷ next ∷ path) (suc (suc f)) h k =
    let rest = get_property_path_str (next ∷ path) in
    read_item (suc f) item ("." ⧺ rest) h.0 (ap (begins is_dot) (dot_append rest))
    ∙ ap (λ r. item ∷ r) (skip_dot f rest ∙ extract-path (next ∷ path) f h.1 (omega arith))

-- Every item takes a character, and so does every dot.
in_path-count : (item : String) → (item == "") ≡ false → 1 ≤ String.count (in_path item)
in_path-count item e = written (is_plain item)
  where
    some_count : (s : String) → (s == "") ≡ false → 1 ≤ String.count s
    some_count String.[] e = absurd (cc)
    some_count (String.◌∷◌ c s) e = omega (arith, length-cons c s)

    written : (p : Bool) → 1 ≤ String.count (if p then item else "[" ⧺ (item ⧺ "]"))
    written true = some_count item e
    written false =
        subst (λ n. 1 ≤ n)
          (sym (ap String.count (open_append (item ⧺ "]")) ∙ length-cons opening (item ⧺ "]")))
          (omega arith)

path-count :
    (path : List String)
    → All IsItem path
    → 2 * length path ≤ String.count (get_property_path_str path) + 1
unfolding get_property_path_str join
path-count [] h = omega arith
path-count (item ∷ []) h = omega (arith, in_path-count item h.0.0)
path-count (item ∷ next ∷ path) h =
    let rest = get_property_path_str (next ∷ path) in
    omega (
      arith,
      in_path-count item h.0.0,
      path-count (next ∷ path) h.1,
      length-append (in_path item) ("." ⧺ rest),
      ap String.count (dot_append rest) ∙ length-cons dot rest,
    )

-- A path of fields that are not empty and have no square brackets is written as a text that is read
-- as that path, whatever other characters its fields have.
pub extract_fields-path :
    (path : List String) → All IsItem path → extract_fields (get_property_path_str path) ≡ path
unfolding extract_fields
extract_fields-path path h = extract-path path _ h (path-count path h)
