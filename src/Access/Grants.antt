-- ===== src/Access/Grants.antt =====
-- The role of a caller on a tenant rests on a grant.
use keep_api_gateway.Prelude.{
  ℕ, ◌≤◌, String, ◌==◌, Bool, true, false, Option, none, some, List, [], ◌∷◌, ◌&&◌, contains, ltb,
  ◌≡◌, ◌⊎◌, inl, inr, refl, ap, subst, arith, if◌then◌else◌, Result, ok, guard-ok,
}
use keep_api_gateway.Access.{
  Refusal, http, Entity, Grant, strength, strength_or_zero, stronger, strongest, get_subjects,
  is_role, resolve, compare_strength, assert_resolved, assert_tenant_role,
}

abbrev pub applies : String → List String → Grant → Bool
applies tenant_id subjects g = (g.tenant_id == tenant_id) && contains subjects g.subject

-- One of the grants that apply is of the role.
abbrev pub HasGrant : String → List String → String → List Grant → Type 0
HasGrant tenant_id subjects role [] = ⊥
HasGrant tenant_id subjects role (g ∷ gs) =
    ((applies tenant_id subjects g ≡ true) × (g.role ≡ role)) ⊎ HasGrant tenant_id subjects role gs

abbrev pub rank : String → ℕ
rank role = strength_or_zero (strength role)

-- No grant that applies is of a stronger role.
abbrev pub NoneStronger : String → List String → String → List Grant → Type 0
NoneStronger tenant_id subjects role [] = Unit
NoneStronger tenant_id subjects role (g ∷ gs) =
    (applies tenant_id subjects g ≡ true → rank g.role ≤ rank role)
    × NoneStronger tenant_id subjects role gs

abbrev pub IsStrongest : String → List String → List Grant → Option String → Type 0
IsStrongest tenant_id subjects gs (some role) =
    HasGrant tenant_id subjects role gs × NoneStronger tenant_id subjects role gs
IsStrongest tenant_id subjects [] none = Unit
IsStrongest tenant_id subjects (g ∷ gs) none =
    (applies tenant_id subjects g ≡ false) × IsStrongest tenant_id subjects gs none

module _ (tenant_id : String) (subjects : List String) where
  NoneStronger-le :
      (low high : String) (gs : List Grant)
      → rank low ≤ rank high
      → NoneStronger tenant_id subjects low gs
      → NoneStronger tenant_id subjects high gs
  NoneStronger-le low high [] h n = tt
  NoneStronger-le low high (g ∷ gs) h n =
      (λ a. omega (arith, h, n.0 a), NoneStronger-le low high gs h n.1)

  none-NoneStronger :
      (role : String) (gs : List Grant)
      → IsStrongest tenant_id subjects gs none
      → NoneStronger tenant_id subjects role gs
  none-NoneStronger role [] n = tt
  none-NoneStronger role (g ∷ gs) n = (λ a. absurd (cc), none-NoneStronger role gs n.1)

  best-IsStrongest :
      (b : Bool) (g : Grant) (gs : List Grant) (best : String)
      → applies tenant_id subjects g ≡ true
      → ltb (rank g.role) (rank best) ≡ b
      → IsStrongest tenant_id subjects gs (some best)
      → IsStrongest tenant_id subjects (g ∷ gs) (if b then some best else some g.role)
  best-IsStrongest true g gs best a l s = (inr s.0, (λ t. ground (arith, l), s.1))
  best-IsStrongest false g gs best a l s =
      (inl (a, refl), (λ t. omega arith, NoneStronger-le best g.role gs (ground (arith, l)) s.1))

  step-IsStrongest :
      (b : Bool) (g : Grant) (gs : List Grant) (o : Option String)
      → applies tenant_id subjects g ≡ b
      → IsStrongest tenant_id subjects gs o
      → IsStrongest tenant_id subjects (g ∷ gs) (if b then stronger g.role o else o)
  step-IsStrongest true g gs none a s =
      (inl (a, refl), (λ t. omega arith, none-NoneStronger g.role gs s))
  step-IsStrongest true g gs (some best) a s =
      best-IsStrongest (ltb (rank g.role) (rank best)) g gs best a refl s
  step-IsStrongest false g gs none a s = (a, s)
  step-IsStrongest false g gs (some best) a s = (inr s.0, (λ t. absurd (cc), s.1))

  -- The role found for some subjects on a tenant is that of a grant of theirs there, and no grant of
  -- theirs there is of a stronger role; where none is found, they have no grant there.
  pub strongest-IsStrongest :
      (gs : List Grant) → IsStrongest tenant_id subjects gs (strongest tenant_id subjects gs)
  unfolding strongest
  strongest-IsStrongest [] = tt
  strongest-IsStrongest (g ∷ gs) =
      step-IsStrongest (applies tenant_id subjects g) g gs (strongest tenant_id subjects gs) refl
        (strongest-IsStrongest gs)

same_role : (x y : String) → ◌≡◌ {A = Result Refusal String} (ok x) (ok y) → x ≡ y
same_role x y e = cc

compare_strength-ok :
    (role found : String) (s m : Option ℕ)
    → compare_strength role s m ≡ ok found
    → (role ≡ found) × (strength_or_zero m ≤ strength_or_zero s)
compare_strength-ok role found (some s) (some m) h =
    let g = guard-ok (ltb s m) (http 403) (ok role) found h in
    (same_role role found g.1, ground (arith, g.0))
compare_strength-ok role found (some s) none h = absurd (cc)
compare_strength-ok role found none m h = absurd (cc)

assert_resolved-ok :
    (o : Option String) (minimum role : String)
    → assert_resolved o minimum ≡ ok role
    → (o ≡ some role) × (rank minimum ≤ rank role)
assert_resolved-ok none minimum role h = absurd (cc)
assert_resolved-ok (some found) minimum role h =
    let c = compare_strength-ok found role (strength found) (strength minimum) h in
    (ap some c.0, subst (λ r. rank minimum ≤ rank r) c.0 c.1)

resolved_from :
    (b : Bool) (found : Option String) (role : String)
    → (if b then some "admin" else found) ≡ some role
    → (b ≡ true) ⊎ (found ≡ some role)
resolved_from true found role h = inl refl
resolved_from false found role h = inr h

-- A caller who passes the check of a tenant is a superadmin, or a grant there gives one of the
-- caller's subjects the role that is returned; and that role is at least as strong as the minimum.
pub assert_tenant_role-HasGrant :
    (e : Entity) (tenant_id minimum role : String) (grants : List Grant)
    → assert_tenant_role e tenant_id minimum grants ≡ ok role
    → ((is_role e.role "superadmin" ≡ true) ⊎ HasGrant tenant_id (get_subjects e) role grants)
      × (rank minimum ≤ rank role)
unfolding assert_tenant_role resolve
assert_tenant_role-HasGrant e tenant_id minimum role grants h =
    let a = assert_resolved-ok (resolve e tenant_id grants) minimum role h in
    (
      elim (resolved_from (is_role e.role "superadmin") _ role a.0) [
        | inl s ↦ inl s
        | inr f ↦
            inr
              (subst (IsStrongest tenant_id (get_subjects e) grants) f
                (strongest-IsStrongest tenant_id (get_subjects e) grants)).0
      ],
      a.1,
    )
