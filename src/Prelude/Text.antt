-- ===== src/Prelude/Text.antt =====
-- Texts: Python's `in`, `lower`, `join`, `split` and decimal printing.
pub mod Parts
use Prim.Native.Nat.{ℕ, zero, suc, ◌-◌, ◌/◌, ◌%◌, ◌≤◌}
use native.Mathlib.Omega.{arith}
use keep_api_gateway.Prelude.Lists.{length}
use Prim.Native.Char.{Char, code}
use Prim.Native.String.{String, ◌++◌, char_at}
use mathlib.Core.Path.{◌≡◌, refl}
use mathlib.Core.Bool.{Bool, true, false, ◌&&◌, ◌||◌}
use mathlib.Core.List.{List, [], ◌∷◌}
use text.Mathlib.Text.{◌==◌}
use keep_api_gateway.Prelude.Tests.{ltb, leb, nat_eq, if◌then◌else◌}

-- `k in texts`
abbrev pub contains : List String → String → Bool
contains [] k = false
contains (x ∷ xs) k = x == k || contains xs k

-- `str.lower`, on the letters A to Z; every other character is left as it is.
lower_char : Char → Char
lower_char c =
    if leb b'A' (code c) && leb (code c) b'Z'
    then char_at "abcdefghijklmnopqrstuvwxyz" (code c - b'A')
    else c

unfoldable pub lower : String → String
unfolding lower_char
lower String.[] = String.[]
lower (String.◌∷◌ c s) = String.◌∷◌ (lower_char c) (lower s)

-- `sep.join(parts)`
unfoldable pub join : String → List String → String
join sep [] = ""
join sep (x ∷ []) = x
join sep (x ∷ y ∷ r) = x ++ (sep ++ join sep (y ∷ r))

-- `text.split(sep)` at a separator of one character; `word` is the part read so far, reversed.
push_char : Char → List String → List String
push_char c [] = String.◌∷◌ c String.[] ∷ []
push_char c (w ∷ ws) = String.◌∷◌ c w ∷ ws

unfoldable pub split : ℕ → String → List String
unfolding push_char
split sep String.[] = "" ∷ []
split sep (String.◌∷◌ c s) =
    let rest = split sep s in if nat_eq (code c) sep then "" ∷ rest else push_char c rest

pub split-pos : (sep : ℕ) (s : String) → 1 ≤ length (split sep s)
unfolding split push_char
split-pos sep String.[] = omega arith
split-pos sep (String.◌∷◌ c s) = first (nat_eq (code c) sep) (split sep s)
  where
    first : (b : Bool) (rest : List String) → 1 ≤ length (if b then "" ∷ rest else push_char c rest)
    first true rest = omega arith
    first false [] = omega arith
    first false (w ∷ ws) = omega arith

-- `text.startswith(old)`
unfoldable pub is_prefix : String → String → Bool
is_prefix String.[] s = true
is_prefix (String.◌∷◌ c old) String.[] = false
is_prefix (String.◌∷◌ c old) (String.◌∷◌ d s) = nat_eq (code c) (code d) && is_prefix old s

-- `old in text`
unfoldable pub is_infix : String → String → Bool
unfolding is_prefix
is_infix old String.[] = is_prefix old String.[]
is_infix old (String.◌∷◌ c s) = is_prefix old (String.◌∷◌ c s) || is_infix old s

-- `text.replace(old, new)` after `skip` characters of a replaced part, for an `old` of `suc more`
-- characters.
unfoldable pub replace_after : (skip more : ℕ) (old new : String) → String → String
unfolding is_prefix
replace_after skip more old new String.[] = ""
replace_after (suc skip) more old new (String.◌∷◌ c s) = replace_after skip more old new s
replace_after zero more old new (String.◌∷◌ c s) =
    let replaced = new ++ replace_after more more old new s in
    let left = String.◌∷◌ c (replace_after 0 more old new s) in
    if is_prefix old (String.◌∷◌ c s) then replaced else left

-- `str(n)` of a number that is not negative; one unit of fuel for each digit is enough.
digit : ℕ → String
digit d = String.◌∷◌ (char_at "0123456789" d) String.[]

decimal_fuel : ℕ → ℕ → String
decimal_fuel zero n = ""
decimal_fuel (suc f) n =
    let front = decimal_fuel f (n / 10) in if ltb n 10 then digit n else front ++ digit (n % 10)

unfoldable pub decimal : ℕ → String
unfolding decimal_fuel digit
decimal n = decimal_fuel (suc n) n

decimal_runs : decimal 1024 ≡ "1024"
unfolding decimal
decimal_runs = refl

lower_runs : lower "High-1 Z" ≡ "high-1 z"
unfolding lower
lower_runs = refl

split_runs : split b':' "read:a:" ≡ "read" ∷ "a" ∷ "" ∷ []
unfolding split
split_runs = refl

replace_runs : replace_after 0 3 "null" "None" "nagios_null" ≡ "nagios_None"
unfolding replace_after
replace_runs = refl
