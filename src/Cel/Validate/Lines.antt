-- ===== src/Cel/Validate/Lines.antt =====
-- A filter that is not blank has a character in its only line, if it has one line.
use Prim.Native.Char.{Char, code}
use Prim.Native.String
use keep_api_gateway.Prelude.{
  ℕ, ◌≤◌, String, Bool, true, false, ◌&&◌, nat_eq, List, [], ◌∷◌, length, split, split-one, ◌≡◌,
  refl, sym, subst, arith, if◌then◌else◌,
}
use keep_api_gateway.Cel.Convert.{is_line_break, push_to_line, last_line, line_count, split_lines}
use keep_api_gateway.Cel.Validate.{is_space, is_blank}

count-filled : (s : String) → is_blank s ≡ false → 1 ≤ String.count s
unfolding is_blank
count-filled String.[] b = absurd (cc)
count-filled (String.◌∷◌ c s) b = rw (String.count.cons c s) (omega arith)

count-cons : (c : Char) (s : String) → 1 ≤ String.count (String.◌∷◌ c s)
count-cons c s = rw (String.count.cons c s) (omega arith)

only_part : (parts : List String) → 1 ≡ length parts → parts ≡ last_line "" parts ∷ []
only_part [] h = absurd (omega (arith, h))
only_part (p ∷ []) h = refl
only_part (p ∷ q ∷ ps) h = absurd (omega (arith, h))

pub split-filled :
    (s : String)
    → is_blank s ≡ false
    → 1 ≡ length (split b'\n' s)
    → 1 ≤ String.count (last_line "" (split b'\n' s))
split-filled s b h =
    let same : last_line "" (split b'\n' s) ≡ s =
      split-one (Char.char 10 tt) s (last_line "" (split b'\n' s)) (only_part (split b'\n' s) h) in
    subst (λ x. 1 ≤ String.count x) (sym same) (count-filled s b)

line_break_is_space : (n : ℕ) → is_line_break n ≡ true → is_space n ≡ true
line_break_is_space n h = ground (arith, h)

pushed : (c : Char) (ls : List String) → push_to_line c ls ≡ [] → ⊥
pushed c [] h = cc
pushed c (l ∷ ls) h = cc

newline_is_space : (after : Bool) (n : ℕ) → (after && nat_eq n 10) ≡ true → is_space n ≡ true
newline_is_space after n h = ground (arith, h)

no_lines : (after : Bool) (s : String) → split_lines after s ≡ [] → is_blank s ≡ true
unfolding split_lines is_blank
no_lines after String.[] h = refl
no_lines after (String.◌∷◌ c s) h =
    by_tests (after && nat_eq (code c) 10) (is_line_break (code c)) refl h
      (no_lines (nat_eq (code c) 13) s)
  where
    rest : List String
    rest = split_lines (nat_eq (code c) 13) s

    by_tests :
        (skipped ends : Bool)
        → (after && nat_eq (code c) 10) ≡ skipped
        → (if skipped then rest else if ends then "" ∷ rest else push_to_line c rest) ≡ []
        → (rest ≡ [] → is_blank s ≡ true)
        → (is_space (code c) && is_blank s) ≡ true
    by_tests true ends e h blank = rw (newline_is_space after (code c) e) (blank h)
    by_tests false true e h blank = absurd (cc)
    by_tests false false e h blank = absurd (pushed c rest h)

-- What is left of a text that is not blank after a space is not blank.
filled_rest :
    (n : ℕ) (s : String)
    → is_space n ≡ true
    → (is_space n && is_blank s) ≡ false
    → is_blank s ≡ false
filled_rest n s e b = rw e at b

pub split_lines-filled :
    (after : Bool) (s : String)
    → is_blank s ≡ false
    → 1 ≡ line_count (split_lines after s)
    → 1 ≤ String.count (last_line "" (split_lines after s))
unfolding split_lines is_blank
split_lines-filled after String.[] b h = absurd (cc)
split_lines-filled after (String.◌∷◌ c s) b h =
    by_tests (after && nat_eq (code c) 10) (is_line_break (code c)) refl refl h
      (split_lines-filled (nat_eq (code c) 13) s)
  where
    rest : List String
    rest = split_lines (nat_eq (code c) 13) s

    pushed_line :
        (ls : List String)
        → 1 ≡ line_count (push_to_line c ls)
        → 1 ≤ String.count (last_line "" (push_to_line c ls))
    pushed_line [] one = count-cons c ""
    pushed_line (l ∷ []) one = count-cons c l
    pushed_line (l ∷ m ∷ ls) one = absurd (omega (arith, one))

    ended :
        is_line_break (code c) ≡ true
        → (ls : List String) → rest ≡ ls
        → 1 ≡ line_count ("" ∷ ls)
        → ⊥
    ended e [] none_left one =
        let blank : is_blank s ≡ true = no_lines (nat_eq (code c) 13) s none_left in
        let filled : is_blank s ≡ false =
          filled_rest (code c) s (line_break_is_space (code c) e) b in
        cc
    ended e (l ∷ ls) none_left one = omega (arith, one)

    by_tests :
        (skipped ends : Bool)
        → (after && nat_eq (code c) 10) ≡ skipped
        → is_line_break (code c) ≡ ends
        → 1 ≡ line_count (if skipped then rest else if ends then "" ∷ rest else push_to_line c rest)
        → (is_blank s ≡ false → 1 ≡ line_count rest → 1 ≤ String.count (last_line "" rest))
        → 1
          ≤ String.count (
              last_line ""
                (if skipped then rest else if ends then "" ∷ rest else push_to_line c rest))
    by_tests true ends e d one later =
        later (filled_rest (code c) s (newline_is_space after (code c) e) b) one
    by_tests false true e d one later = absurd (ended d rest refl one)
    by_tests false false e d one later = pushed_line rest one
