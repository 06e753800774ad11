-- ===== src/Access.antt =====
-- src/services/identity_manager/rbac.py and tenant_access.py: what a role may do, and which role a
-- caller has on a tenant.
pub mod Verifier
pub mod Scopes
pub mod Spelled
pub mod Granted
pub mod Presented
pub mod Identity
pub mod Grants
pub mod LastUse
pub mod Tests
use keep_api_gateway.Prelude.{
  ℕ, String, ◌⧺◌, ◌==◌, Bool, true, false, Option, none, some, List, [], ◌∷◌, ◌++◌, ◌&&◌, ◌||◌,
  contains, split, ltb, if◌then◌else◌, Result, ok, err, ◌>>=◌,
}

-- An exception: an `HTTPException` with its status code, or one of the language.
pub data Refusal : Type 0 where
  http : ℕ → Refusal
  key_error attribute_error : Refusal

-- `Roles` and the classes below `Role`
pub data Role : Type 0 where
  superadmin admin noc editor viewer webhook : Role

-- `SCOPES`
abbrev pub scopes_of : Role → List String
scopes_of superadmin =
    "read:*" ∷ "write:*" ∷ "delete:*" ∷ "update:*" ∷ "execute:*" ∷ "create:*" ∷ []
scopes_of admin = "read:*" ∷ "write:*" ∷ "delete:*" ∷ "update:*" ∷ "execute:*" ∷ []
scopes_of noc = "read:*" ∷ []
scopes_of editor = "read:*" ∷ "write:*" ∷ "delete:*" ∷ "update:*" ∷ "execute:*" ∷ []
scopes_of viewer = "read:*" ∷ []
scopes_of webhook = "write:alert" ∷ "write:incident" ∷ []

-- What the parts of a scope allow, when the scope itself is not listed.
abbrev pub has_wildcard : List String → List String → Bool
has_wildcard available (action ∷ resource ∷ []) = contains available (action ⧺ ":*")
has_wildcard available _ = false

-- `has_scopes`, on the scopes that are available
unfoldable pub has_scopes : List String → List String → Bool
has_scopes available [] = true
has_scopes available (scope ∷ scopes) =
    (contains available scope || has_wildcard available (split b':' scope))
    && has_scopes available scopes

-- `get_role_by_role_name`
unfoldable pub get_role : String → Result Refusal Role
get_role name =
    if name == "superadmin"
    then ok superadmin
    else if name == "admin"
    then ok admin
    else if name == "noc"
    then ok noc
    else if name == "editor"
    then ok editor
    else if name == "viewer"
    then ok viewer
    else if name == "webhook"
    then ok webhook
    else err (http 403)

-- `AuthenticatedEntity`, with the attributes that the identity managers add
pub record Entity : Type 0 where
  pub tenant_id : String
  pub email : String
  pub user_email : Option String
  pub groups : List String
  pub api_key_name : Option String
  pub role : Option String

-- `_ROLE_STRENGTH`
abbrev pub strength : String → Option ℕ
strength role =
    if role == "admin"
    then some 3
    else if role == "editor"
    then some 2
    else if role == "viewer"
    then some 1
    else none

abbrev pub add_email : Option String → List String → List String
add_email none subjects = subjects
add_email (some e) subjects =
    if e == "" || contains subjects e then subjects else subjects ++ e ∷ []

-- `get_subjects`
unfoldable pub get_subjects : Entity → List String
get_subjects e = add_email e.user_email (if e.email == "" then [] else e.email ∷ []) ++ e.groups

-- A row of `tenant_role_grant`
pub record Grant : Type 0 where
  pub tenant_id : String
  pub subject : String
  pub role : String

abbrev pub strength_or_zero : Option ℕ → ℕ
strength_or_zero none = 0
strength_or_zero (some n) = n

-- `max(roles, key=...)`: of equal ones the first
abbrev pub stronger : String → Option String → Option String
stronger role none = some role
stronger role (some best) =
    if ltb (strength_or_zero (strength role)) (strength_or_zero (strength best))
    then some best
    else some role

-- `get_tenant_role_for_subjects`
unfoldable pub strongest : String → List String → List Grant → Option String
strongest tenant_id subjects [] = none
strongest tenant_id subjects (g ∷ gs) =
    let rest = strongest tenant_id subjects gs in
    if (g.tenant_id == tenant_id) && contains subjects g.subject then stronger g.role rest else rest

abbrev pub is_role : Option String → String → Bool
is_role none name = false
is_role (some role) name = role == name

-- `resolve_tenant_role`
unfoldable pub resolve : Entity → String → List Grant → Option String
unfolding get_subjects strongest
resolve e tenant_id grants =
    if is_role e.role "superadmin"
    then some "admin"
    else strongest tenant_id (get_subjects e) grants

abbrev pub compare_strength : String → Option ℕ → Option ℕ → Result Refusal String
compare_strength role (some s) (some m) = if ltb s m then err (http 403) else ok role
compare_strength role _ _ = err key_error

abbrev pub assert_resolved : Option String → String → Result Refusal String
assert_resolved none minimum = err (http 403)
assert_resolved (some role) minimum = compare_strength role (strength role) (strength minimum)

-- `assert_tenant_role`
unfoldable pub assert_tenant_role : Entity → String → String → List Grant → Result Refusal String
unfolding resolve
assert_tenant_role e tenant_id minimum grants = assert_resolved (resolve e tenant_id grants) minimum
