-- ===== src/Access/Scopes.antt =====
-- The roles form a chain: what a weaker one may do, a stronger one may.
use keep_api_gateway.Prelude.{String, ◌⧺◌, true, List, [], ◌∷◌, contains, split, ◌≡◌, refl, arith}
use keep_api_gateway.Access.{
  Role, superadmin, admin, noc, editor, viewer, scopes_of, has_wildcard, has_scopes,
}

-- Every listed text is listed there too.
abbrev IsWithin : List String → List String → Type 0
IsWithin xs ys = (s : String) → contains xs s ≡ true → contains ys s ≡ true

wildcard-IsWithin :
    (xs ys parts : List String)
    → IsWithin xs ys
    → has_wildcard xs parts ≡ true
    → has_wildcard ys parts ≡ true
wildcard-IsWithin xs ys [] w h = h
wildcard-IsWithin xs ys (a ∷ []) w h = h
wildcard-IsWithin xs ys (a ∷ b ∷ []) w h = w (a ⧺ ":*") h
wildcard-IsWithin xs ys (a ∷ b ∷ c ∷ ps) w h = h

scopes-IsWithin :
    (xs ys scopes : List String)
    → IsWithin xs ys
    → has_scopes xs scopes ≡ true
    → has_scopes ys scopes ≡ true
unfolding has_scopes
scopes-IsWithin xs ys [] w h = refl
scopes-IsWithin xs ys (s ∷ ss) w h =
    ground (arith, w s, wildcard-IsWithin xs ys (split b':' s) w, scopes-IsWithin xs ys ss w, h)

-- `r` is the weaker of the two roles, or equal.
abbrev pub IsBelow : Role → Role → Type 0
IsBelow viewer editor = Unit
IsBelow noc editor = Unit
IsBelow editor admin = Unit
IsBelow admin superadmin = Unit
IsBelow r s = ⊥

below-IsWithin : (r s : Role) → IsBelow r s → IsWithin (scopes_of r) (scopes_of s)
below-IsWithin viewer editor b t h = ground (arith, h)
below-IsWithin noc editor b t h = ground (arith, h)
below-IsWithin editor admin b t h = h
below-IsWithin admin superadmin b t h = ground (arith, h)
below-IsWithin r s b t h = absurd b

-- Whatever scopes are required: the next role of the chain viewer or noc, editor, admin, superadmin
-- has them if the role before it has them.
has_scopes-IsBelow :
    (r s : Role) (scopes : List String)
    → IsBelow r s
    → has_scopes (scopes_of r) scopes ≡ true
    → has_scopes (scopes_of s) scopes ≡ true
has_scopes-IsBelow r s scopes b =
    scopes-IsWithin (scopes_of r) (scopes_of s) scopes (below-IsWithin r s b)
