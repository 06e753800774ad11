-- ===== src/Access/Verifier.antt =====
-- src/services/identity_manager/authverifierbase.py: who makes a request, and whether it is allowed.
use keep_api_gateway.Prelude.{
  ℕ, String, ◌==◌, Bool, true, false, not, Option, none, some, List, [], ◌∷◌, ◌&&◌, any, contains,
  split, join, lower, if◌then◌else◌, Result, ok, err, ◌>>=◌,
}
use keep_api_gateway.Prelude.Dict
use keep_api_gateway.Prelude.Dict.{Dict}
use keep_api_gateway.Access.{
  Refusal, http, attribute_error, Entity, scopes_of, has_scopes, get_role,
}

pub record Verifier : Type 0 where
  pub scopes : List String
  pub read_only : Bool
  pub bypass_keys : List String
  pub impersonation_enabled : Bool
  pub auto_provision : Bool
  -- `KEEP_CLOUDWATCH_DISABLE_API_KEY`
  pub allow_unauth : Bool

-- What the code reads of a request; `password` is that of the basic credentials, `is_sns` and
-- `is_cloudwatch` are the tests on the user agent and on the path.
pub record Request : Type 0 where
  pub api_key : Option String
  pub query_api_key : Option String
  pub query_tenant_id : Option String
  pub token : Option String
  pub password : Option String
  pub authorization : Option String
  pub is_sns : Bool
  pub is_cloudwatch : Bool
  pub user_header : Option String
  pub role_header : Option String

-- A row of the table of API keys.
pub record ApiKey : Type 0 where
  pub tenant_id : String
  pub created_by : String
  pub reference_id : String
  pub role : String

-- A text that is there and not empty.
abbrev pub given : Option String → Option String
given none = none
given (some t) = if t == "" then none else some t

abbrev pub or_else : Option String → Option String → Option String
or_else none o = o
or_else (some t) o = some t

abbrev pub or_text : Option String → String → String
or_text none t = t
or_text (some s) t = s

-- What `_extract_api_key` returns: a key, or the entity of an unauthenticated webhook.
pub data Extracted : Type 0 where
  key : String → Extracted
  entity : Entity → Extracted

abbrev pub cloudwatch_entity : Request → Entity
cloudwatch_entity q = record {
  tenant_id = or_text q.query_tenant_id "keep";
  email = "system";
  user_email = none;
  groups = [];
  api_key_name = some "webhook";
  role = some "webhook";
}

abbrev pub password_key : Option String → Result Refusal Extracted
password_key none = err attribute_error
password_key (some p) = ok (key p)

abbrev pub with_scheme : String → String → Request → Result Refusal Extracted
with_scheme scheme credentials q =
    if scheme == "basic"
    then password_key q.password
    else if scheme == "digest"
    then (if credentials == "" then err (http 403) else ok (key credentials))
    else err (http 401)

-- `auth_header.partition(" ")`, given the parts between the spaces
abbrev pub from_parts : List String → Request → Result Refusal Extracted
from_parts [] q = err (http 401)
from_parts (scheme ∷ rest) q = with_scheme (lower scheme) (join " " rest) q

abbrev pub from_header : Option String → Request → Result Refusal Extracted
from_header none q = err (http 401)
from_header (some h) q = from_parts (split b' ' h) q

abbrev pub is_none : Option String → Bool
is_none none = true
is_none (some t) = false

abbrev pub without_key : Verifier → Request → Result Refusal Extracted
without_key v q =
    if is_none q.password && q.is_sns
    then (if v.allow_unauth && q.is_cloudwatch
        then ok (entity (cloudwatch_entity q))
        else err (http 401))
    else from_header q.authorization q

abbrev pub extract_given : Option String → Verifier → Request → Result Refusal Extracted
extract_given (some k) v q = ok (key k)
extract_given none v q = without_key v q

-- `_extract_api_key`
unfoldable pub extract_api_key : Verifier → Request → Result Refusal Extracted
extract_api_key v q = extract_given (or_else (given q.api_key) (given q.query_api_key)) v q

abbrev pub own_entity : ApiKey → Entity
own_entity k = record {
  tenant_id = k.tenant_id;
  email = k.created_by;
  user_email = none;
  groups = [];
  api_key_name = some k.reference_id;
  role = some k.role;
}

abbrev pub impersonated : ApiKey → String → String → Entity
impersonated k user role = record {
  tenant_id = k.tenant_id;
  email = user;
  user_email = none;
  groups = [];
  api_key_name = none;
  role = some role;
}

-- `except HTTPException: raise`, and any other exception is a refusal.
abbrev pub refused : Result Refusal Entity → Result Refusal Entity
refused (ok e) = ok e
refused (err (http c)) = err (http c)
refused (err _) = err (http 401)

-- `_authorize`
unfoldable pub authorize : Verifier → Entity → Result Refusal Entity
authorize v e = do
  role ← get_role (or_text e.role "None")
  if has_scopes (scopes_of role) v.scopes then ok e else err (http 403)

-- `scope.split(":")[0] != "read"`
abbrev pub first_part : List String → String
first_part [] = ""
first_part (p ∷ ps) = p

abbrev pub is_write : String → Bool
is_write scope = not (first_part (split b':' scope) == "read")

abbrev pub is_bypass : Verifier → Option String → Bool
is_bypass v none = false
is_bypass v (some k) = contains v.bypass_keys k

-- The hooks of the subclasses, and the lookup of a key by its hash.
module _ (verify_token : String → Result Refusal Entity) (get_api_key : String → Option ApiKey)
    (provision : (tenant_id user role : String) → Result Refusal (Unit {0})) (v : Verifier) where
  abbrev pub provision_if : Bool → ApiKey → String → String → Result Refusal (Unit {0})
  provision_if true k user role = provision k.tenant_id user role
  provision_if false k user role = ok tt

  abbrev pub impersonate : Option String → Option String → ApiKey → Result Refusal Entity
  impersonate (some user) (some role) k =
      if k.role == "admin"
      then (provision_if v.auto_provision k user role >>= λ done. ok (impersonated k user role))
      else err (http 401)
  impersonate _ _ k = ok (own_entity k)

  abbrev pub with_api_key : Option ApiKey → Request → Result Refusal Entity
  with_api_key none q = err (http 401)
  with_api_key (some k) q =
      if v.impersonation_enabled
      then impersonate (given q.user_header) (given q.role_header) k
      else ok (own_entity k)

  -- `_verify_api_key`, without the note of the key's last use
  unfoldable pub verify_api_key : Request → String → Result Refusal Entity
  verify_api_key q k = with_api_key (get_api_key k) q

  abbrev pub with_extracted : Request → Extracted → Result Refusal Entity
  with_extracted q (entity e) = ok e
  with_extracted q (key k) = if k == "" then err (http 401) else refused (verify_api_key q k)

  abbrev pub with_token : Option String → Request → Result Refusal Entity
  with_token (some t) q = refused (verify_token t)
  with_token none q = extract_api_key v q >>= with_extracted q

  -- `authenticate`
  unfoldable pub authenticate : Request → Result Refusal Entity
  unfolding extract_api_key verify_api_key
  authenticate q = with_token (given q.token) q

  -- `__call__`
  unfoldable pub call : Request → Result Refusal Entity
  unfolding authenticate authorize
  call q =
      if v.read_only && (not (is_bypass v q.api_key) && any is_write v.scopes)
      then err (http 403)
      else authenticate q >>= authorize v

-- `key_last_used_updates`, by key and time, and the updates that reached the database.
pub record Usage : Type 0 where
  pub last_used : Dict ℕ
  pub updates : List (String × ℕ)

abbrev pub touch_found : Option ℕ → String → ℕ → Usage → Usage
touch_found (some t) k now u = u
touch_found none k now u = record u {
  last_used = Dict.put u.last_used k now;
  updates = (k, now) ∷ u.updates;
}

-- The note of a key's last use in `_verify_api_key`, whose test of the interval has no consequence.
unfoldable pub touch : String → ℕ → Usage → Usage
touch k now u = touch_found (Dict.get u.last_used k) k now u

unfoldable pub touch_all : String → List ℕ → Usage → Usage
unfolding touch
touch_all k [] u = u
touch_all k (now ∷ later) u = touch_all k later (touch k now u)
