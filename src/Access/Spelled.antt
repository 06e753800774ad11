-- ===== src/Access/Spelled.antt =====
-- What the texts of roles and scopes say: the role a name stands for, and the parts of a scope.
use Prim.Native.Char
use keep_api_gateway.Prelude.{
  String, ◌⧺◌, ◌==◌, eq_iff, Bool, true, false, not, List, [], ◌∷◌, ◌&&◌, ◌||◌, any, All, contains,
  join, split, join-split, ◌≡◌, ◌⊎◌, inl, inr, refl, sym, ap, ◌∙◌, if◌then◌else◌, Result, ok, err,
}
use keep_api_gateway.Access.{
  Refusal, Role, superadmin, admin, noc, editor, viewer, webhook, get_role, has_wildcard,
  has_scopes,
}
use keep_api_gateway.Access.Verifier.{first_part, is_write}

abbrev pub name_of : Role → String
name_of superadmin = "superadmin"
name_of admin = "admin"
name_of noc = "noc"
name_of editor = "editor"
name_of viewer = "viewer"
name_of webhook = "webhook"

-- A scope is listed, or it is an action on a resource and the action is listed for everything.
abbrev pub IsPermitted : List String → String → Type 0
IsPermitted available scope =
    (contains available scope ≡ true)
    ⊎ ((action : String) × (resource : String) × (scope ≡ action ⧺ (":" ⧺ resource))
        × (contains available (action ⧺ ":*") ≡ true))

-- A scope of reading, of a resource or without one.
abbrev pub IsRead : String → Type 0
IsRead scope = (scope ≡ "read") ⊎ ((resource : String) × (scope ≡ "read" ⧺ (":" ⧺ resource)))

is_named :
    (role r : Role) (name : String) (rest : Result Refusal Role)
    → (rest ≡ ok r → name ≡ name_of r)
    → (if name == name_of role then ok role else rest) ≡ ok r
    → name ≡ name_of r
is_named role r name rest h e = by_test (name == name_of role) refl e
  where
    role_of : Result Refusal Role → Role
    role_of (ok x) = x
    role_of (err x) = role

    by_test :
        (b : Bool)
        → (name == name_of role) ≡ b
        → (if b then ok role else rest) ≡ ok r
        → name ≡ name_of r
    by_test true t e = (eq_iff name (name_of role)).0 t ∙ ap (λ x. name_of (role_of x)) e
    by_test false t e = h e

pub get_role-name : (name : String) (r : Role) → get_role name ≡ ok r → name ≡ name_of r
unfolding get_role
get_role-name name r e =
    is_named superadmin r name _
      (is_named admin r name _ (
        is_named noc r name _ (
          is_named editor r name _
            (is_named viewer r name _ (is_named webhook r name _ (λ x. absurd (cc)))))))
      e

abbrev colon : Char.Char
colon = Char.char 58 tt

scope_of :
    (scope : String) (parts : List String) → split b':' scope ≡ parts → scope ≡ join ":" parts
scope_of scope parts e = sym (join-split colon scope) ∙ ap (join ":") e

wildcard-IsPermitted :
    (available : List String) (scope : String) (parts : List String)
    → split b':' scope ≡ parts
    → has_wildcard available parts ≡ true
    → IsPermitted available scope
unfolding join
wildcard-IsPermitted available scope [] e h = absurd (cc)
wildcard-IsPermitted available scope (a ∷ []) e h = absurd (cc)
wildcard-IsPermitted available scope (a ∷ b ∷ []) e h = inr (a, b, scope_of scope (a ∷ b ∷ []) e, h)
wildcard-IsPermitted available scope (a ∷ b ∷ c ∷ ps) e h = absurd (cc)

pub has_scopes-IsPermitted :
    (available scopes : List String)
    → has_scopes available scopes ≡ true
    → All (IsPermitted available) scopes
unfolding has_scopes
has_scopes-IsPermitted available [] h = tt
has_scopes-IsPermitted available (scope ∷ scopes) h =
    by_tests (contains available scope) (has_wildcard available (split b':' scope)) refl refl h
      (has_scopes-IsPermitted available scopes)
  where
    by_tests :
        (listed wild : Bool)
        → contains available scope ≡ listed
        → has_wildcard available (split b':' scope) ≡ wild
        → ((listed || wild) && has_scopes available scopes) ≡ true
        → (has_scopes available scopes ≡ true → All (IsPermitted available) scopes)
        → IsPermitted available scope × All (IsPermitted available) scopes
    by_tests true wild l w h rest = (inl l, rest h)
    by_tests false true l w h rest =
        (wildcard-IsPermitted available scope (split b':' scope) refl w, rest h)
    by_tests false false l w h rest = absurd (cc)

reads-IsRead :
    (scope : String) (parts : List String)
    → split b':' scope ≡ parts
    → (first_part parts == "read") ≡ true
    → IsRead scope
unfolding join
reads-IsRead scope [] e h = absurd (cc)
reads-IsRead scope (p ∷ []) e h = inl (scope_of scope (p ∷ []) e ∙ (eq_iff p "read").0 h)
reads-IsRead scope (p ∷ q ∷ qs) e h = inr (
  join ":" (q ∷ qs),
  scope_of scope (p ∷ q ∷ qs) e ∙ ap (λ x. x ⧺ (":" ⧺ join ":" (q ∷ qs))) ((eq_iff p "read").0 h),
)

pub any_write-IsRead : (scopes : List String) → any is_write scopes ≡ false → All IsRead scopes
any_write-IsRead [] h = tt
any_write-IsRead (scope ∷ scopes) h =
    by_test (first_part (split b':' scope) == "read") refl h (any_write-IsRead scopes)
  where
    by_test :
        (b : Bool)
        → (first_part (split b':' scope) == "read") ≡ b
        → (not b || any is_write scopes) ≡ false
        → (any is_write scopes ≡ false → All IsRead scopes)
        → IsRead scope × All IsRead scopes
    by_test true e h rest = (reads-IsRead scope (split b':' scope) refl e, rest h)
    by_test false e h rest = absurd (cc)
