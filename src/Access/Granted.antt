-- ===== src/Access/Granted.antt =====
-- What a request that is let through has shown.
use keep_api_gateway.Prelude.{
  ap, subst, sym, ◌∙◌, ◌==◌, eq_iff, String, Bool, true, false, not, Option, none, some, ◌&&◌, any,
  All, contains, ◌≡◌, ◌⊎◌, inl, inr, refl, if◌then◌else◌, Result, ok, err, ◌>>=◌, bind-ok, guard-ok,
  require-ok,
}
use keep_api_gateway.Access.{
  Refusal, http, Entity, Role, superadmin, admin, noc, editor, viewer, webhook, scopes_of,
  has_scopes, get_role,
}
use keep_api_gateway.Access.Verifier.{
  Verifier, Request, ApiKey, or_text, authenticate, authorize, is_write, is_bypass, call,
}
use keep_api_gateway.Access.Spelled.{
  name_of, IsPermitted, IsRead, get_role-name, has_scopes-IsPermitted, any_write-IsRead,
}

-- The entity names one of the program's roles, whose scopes permit every scope that is required.
abbrev pub IsAllowed : Verifier → Entity → Type 0
IsAllowed v e = (r : Role) × (e.role ≡ some (name_of r)) × All (IsPermitted (scopes_of r)) v.scopes

-- The request brings one of the keys that read-only instances let through.
abbrev pub BringsBypass : Verifier → Option String → Type 0
BringsBypass v api_key = (k : String) × (api_key ≡ some k) × (contains v.bypass_keys k ≡ true)

abbrev allow : Verifier → Entity → Role → Result Refusal Entity
allow v e r = if has_scopes (scopes_of r) v.scopes then ok e else err (http 403)

ok_same : (x y : Entity) → ◌≡◌ {A = Result Refusal Entity} (ok x) (ok y) → x ≡ y
ok_same x y e = cc

no_role_is_none : (r : Role) → ("None" == name_of r) ≡ false
no_role_is_none superadmin = refl
no_role_is_none admin = refl
no_role_is_none noc = refl
no_role_is_none editor = refl
no_role_is_none viewer = refl
no_role_is_none webhook = refl

named_role : (o : Option String) (r : Role) → or_text o "None" ≡ name_of r → o ≡ some (name_of r)
named_role none r e = absurd (cc (sym (no_role_is_none r) ∙ (eq_iff "None" (name_of r)).1 e))
named_role (some name) r e = ap some e

authorize-IsAllowed :
    (v : Verifier) (e e₂ : Entity) → authorize v e ≡ ok e₂ → (e ≡ e₂) × IsAllowed v e
unfolding authorize
authorize-IsAllowed v e e₂ h =
    let r = bind-ok (get_role (or_text e.role "None")) (allow v e) e₂ h in
    let g = require-ok (has_scopes (scopes_of r.0) v.scopes) (http 403) (ok e) e₂ r.2 in
    (
      ok_same e e₂ g.1,
      (
        r.0,
        named_role e.role r.0 (get_role-name (or_text e.role "None") r.0 r.1),
        has_scopes-IsPermitted (scopes_of r.0) v.scopes g.0,
      ),
    )

bypass-Brings : (v : Verifier) (o : Option String) → is_bypass v o ≡ true → BringsBypass v o
bypass-Brings v none h = absurd (cc)
bypass-Brings v (some k) h = (k, refl, h)

not_write :
    (read_only bypass write : Bool)
    → (read_only && (not bypass && write)) ≡ false
    → (read_only ≡ false) ⊎ ((bypass ≡ true) ⊎ (write ≡ false))
not_write false b w h = inl refl
not_write true true w h = inr (inl refl)
not_write true false false h = inr (inr refl)
not_write true false true h = absurd (cc)

-- What a read-only instance lets through.
abbrev pub IsReading : Verifier → Option String → Type 0
IsReading v api_key = (v.read_only ≡ false) ⊎ (BringsBypass v api_key ⊎ All IsRead v.scopes)

guarded-IsReading :
    (v : Verifier) (o : Option String)
    → (v.read_only && (not (is_bypass v o) && any is_write v.scopes)) ≡ false
    → IsReading v o
guarded-IsReading v o h = by_kind (not_write v.read_only (is_bypass v o) (any is_write v.scopes) h)
  where
    by_kind :
        (v.read_only ≡ false) ⊎ ((is_bypass v o ≡ true) ⊎ (any is_write v.scopes ≡ false))
        → IsReading v o
    by_kind (inl e) = inl e
    by_kind (inr (inl e)) = inr (inl (bypass-Brings v o e))
    by_kind (inr (inr e)) = inr (inr (any_write-IsRead v.scopes e))

module _ (verify_token : String → Result Refusal Entity) (get_api_key : String → Option ApiKey)
    (provision : (tenant_id user role : String) → Result Refusal (Unit {0})) (v : Verifier) where
  -- A request that is let through ends with an entity that was authenticated and names one of the
  -- program's roles. Each scope required is listed for the role, or is an action on a resource and the
  -- action is listed for everything. On a read-only instance the request brings one of the bypass keys,
  -- or every scope required is one of reading.
  pub call-IsAllowed :
      (q : Request) (e : Entity)
      → call verify_token get_api_key provision v q ≡ ok e
      → (authenticate verify_token get_api_key provision v q ≡ ok e)
        × IsAllowed v e
        × IsReading v q.api_key
  unfolding call
  call-IsAllowed q e h =
      let g =
        guard-ok (v.read_only && (not (is_bypass v q.api_key) && any is_write v.scopes)) (http 403)
          (authenticate verify_token get_api_key provision v q >>= authorize v) e h in
      let r = bind-ok (authenticate verify_token get_api_key provision v q) (authorize v) e g.1 in
      let a = authorize-IsAllowed v r.0 e r.2 in
      (r.1 ∙ ap ok a.0, subst (IsAllowed v) a.0 a.1, guarded-IsReading v q.api_key g.0)
