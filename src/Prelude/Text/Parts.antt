-- ===== src/Prelude/Text/Parts.antt =====
-- The parts of a text at a separator, joined again.
use Prim.Native.Char.{Char, code}
use Prim.Native.String.{String, ◌++◌ as ◌⧺◌}
use mathlib.Core.Path.{◌≡◌, refl, ap, sym, ◌∙◌}
use mathlib.Core.Bool.{Bool, true, false}
use mathlib.Core.List.{List, [], ◌∷◌}
use native.Mathlib.Omega.{arith}
use Prim.Native.Nat.{◌≤◌}
use text.Mathlib.TextLemmas.{nil-append, cons-append}
use text.Mathlib.TextEquality.{Char-path}
use keep_api_gateway.Prelude.Lists.{length}
use keep_api_gateway.Prelude.Tests.{nat_eq, if◌then◌else◌}
use keep_api_gateway.Prelude.Text.{push_char, split, join, split-pos}

abbrev only : Char → String
only c = String.◌∷◌ c String.[]

join-push_char :
    (sep : String) (c : Char) (parts : List String)
    → 1 ≤ length parts
    → join sep (push_char c parts) ≡ String.◌∷◌ c (join sep parts)
unfolding join push_char
join-push_char sep c [] h = absurd (omega (arith, h))
join-push_char sep c (w ∷ []) h = refl
join-push_char sep c (w ∷ v ∷ ws) h = cons-append c w (sep ⧺ join sep (v ∷ ws))

join-empty :
    (sep : Char) (parts : List String)
    → 1 ≤ length parts
    → join (only sep) ("" ∷ parts) ≡ String.◌∷◌ sep (join (only sep) parts)
unfolding join
join-empty sep [] h = absurd (omega (arith, h))
join-empty sep (w ∷ ws) h =
    nil-append (only sep ⧺ join (only sep) (w ∷ ws))
    ∙ cons-append sep String.[] (join (only sep) (w ∷ ws))
    ∙ ap (String.◌∷◌ sep) (nil-append (join (only sep) (w ∷ ws)))

pub join-split : (sep : Char) (s : String) → join (only sep) (split (code sep) s) ≡ s
unfolding split join
join-split sep String.[] = refl
join-split sep (String.◌∷◌ c s) =
    by_test (nat_eq (code c) (code sep)) refl (split-pos (code sep) s) (join-split sep s)
  where
    parts : List String
    parts = split (code sep) s

    by_test :
        (b : Bool)
        → nat_eq (code c) (code sep) ≡ b
        → 1 ≤ length parts
        → join (only sep) parts ≡ s
        → join (only sep) (if b then "" ∷ parts else push_char c parts) ≡ String.◌∷◌ c s
    by_test true e h rest =
        let same : c ≡ sep = Char-path c sep (ground (arith, e)) in
        join-empty sep parts h ∙ ap (String.◌∷◌ sep) rest ∙ ap (λ x. String.◌∷◌ x s) (sym same)
    by_test false e h rest = join-push_char (only sep) c parts h ∙ ap (String.◌∷◌ c) rest

-- A text in one part is that part.
pub split-one : (sep : Char) (s part : String) → split (code sep) s ≡ part ∷ [] → part ≡ s
unfolding join
split-one sep s part h = ap (join (only sep)) (sym h) ∙ join-split sep s
