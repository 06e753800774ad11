-- ===== src/Cel/Mapper/Rank.antt =====
-- The place of a value in the order of an enum, and what the suffixes that the mapper lists contain.
use keep_api_gateway.Prelude.{
  ℕ, zero, suc, String, Bool, true, false, ◌&&◌, contains, leb, ltb, length, drop, List, [], ◌∷◌,
  ◌≡◌, refl, arith, eq_iff, if◌then◌else◌,
}
use keep_api_gateway.Cel.Ast.{Value, str, null, ComparisonNodeOperator, lt, le, gt, ge}
use keep_api_gateway.Cel.Mapper.Enums.{index, index_of, is_member}

-- No value is listed twice.
abbrev pub Distinct : List String → Type 0
Distinct [] = Unit
Distinct (v ∷ vs) = (contains vs v ≡ false) × Distinct vs

-- 0 for a value that is no member, else its place counted from 1.
abbrev pub rank : List String → Value → ℕ
rank vs v = if is_member vs v then suc (index_of vs v) else 0

-- The least rank that a member has takes the place of the rank of a literal that is no member.
abbrev pub bar : ℕ → ℕ
bar zero = 1
bar (suc n) = suc n

-- What an order between the stored value `u` and the literal `v` asks of their ranks.
abbrev pub rank_test : ComparisonNodeOperator → ℕ → ℕ → Bool
rank_test lt u v = ltb u (bar v)
rank_test le u v = leb u v
rank_test gt u v = ltb v u
rank_test ge u v = leb (bar v) u
rank_test _ u v = false

pub contains-drop :
    (vs : List String) (n : ℕ) (t : String)
    → Distinct vs
    → contains (drop n vs) t ≡ (contains vs t && leb n (index vs t))
unfolding index
contains-drop [] zero t d = refl
contains-drop [] (suc n) t d = refl
contains-drop (v ∷ vs) zero t d = ground arith
contains-drop (v ∷ vs) (suc n) t d = ground (arith, eq_iff v t, d.0, contains-drop vs n t d.1)

pub index-lt-length :
    (vs : List String) (t : String) → contains vs t ≡ true → ltb (index vs t) (length vs) ≡ true
unfolding index
index-lt-length [] t h = cc
index-lt-length (v ∷ vs) t h = ground (arith, index-lt-length vs t)

pub is_member-drop :
    (vs : List String) (n : ℕ) (u : Value)
    → Distinct vs
    → is_member (drop n vs) u ≡ ltb n (rank vs u)
is_member-drop vs n (str t) d = ground (arith, contains-drop vs n t d)
is_member-drop vs n null d = ground arith
is_member-drop vs n _ d = ground arith

-- Where the literal is the last member, no member has a greater place.
pub rank-le-length : (vs : List String) (u : Value) → leb (rank vs u) (length vs) ≡ true
rank-le-length vs (str t) = ground (arith, index-lt-length vs t)
rank-le-length vs null = ground arith
rank-le-length vs _ = ground arith
