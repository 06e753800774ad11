-- ===== src/Access/Tests.antt =====
-- Requests and grants, and the theorems at them.
use keep_api_gateway.Prelude.{
  ◌≤◌, String, ◌==◌, if◌then◌else◌, true, false, Option, none, some, List, [], ◌∷◌, ◌≡◌, ◌⊎◌, refl,
  split, Result, ok, err,
}
use keep_api_gateway.Prelude.Dict
use keep_api_gateway.Access.{
  Refusal, http, Entity, has_scopes, get_role, Grant, get_subjects, strongest, resolve,
  assert_tenant_role, is_role,
}
use keep_api_gateway.Access.Verifier.{
  Verifier, Request, ApiKey, impersonated, extract_api_key, verify_api_key, authenticate, authorize,
  call, Usage, touch, touch_all,
}
use keep_api_gateway.Access.Granted.{IsAllowed, IsReading, call-IsAllowed}
use keep_api_gateway.Access.Identity.{IsIdentified, authenticate-IsIdentified}
use keep_api_gateway.Access.Grants.{HasGrant, rank, assert_tenant_role-HasGrant}

-- An identity manager without tokens, one known key, and no provisioning.
abbrev verify_token : String → Result Refusal Entity
verify_token t = err (http 401)

abbrev admin_key : ApiKey
admin_key = record { tenant_id = "acme"; created_by = "joe"; reference_id = "ci"; role = "admin" }

abbrev get_api_key : String → Option ApiKey
get_api_key t = if t == "s3cret" then some admin_key else none

abbrev provision : (tenant_id user role : String) → Result Refusal (Unit {0})
provision tenant_id user role = ok tt

abbrev verifier : Verifier
verifier = record {
  scopes = "read:alert" ∷ [];
  read_only = true;
  bypass_keys = "" ∷ [];
  impersonation_enabled = true;
  auto_provision = true;
  allow_unauth = false;
}

abbrev request : Request
request = record {
  api_key = some "s3cret";
  query_api_key = none;
  query_tenant_id = none;
  token = none;
  password = none;
  authorization = none;
  is_sns = false;
  is_cloudwatch = false;
  user_header = some "ann";
  role_header = some "viewer";
}

abbrev ann : Entity
ann = impersonated admin_key "ann" "viewer"

access : Unit {0}
unfolding get_role has_scopes split get_subjects strongest resolve assert_tenant_role
    extract_api_key verify_api_key authenticate authorize call touch touch_all Dict.get Dict.put
access = tt

call-IsAllowed_example :
    (authenticate verify_token get_api_key provision verifier request ≡ ok ann)
    × IsAllowed verifier ann
    × IsReading verifier request.api_key
call-IsAllowed_example =
    call-IsAllowed verify_token get_api_key provision verifier request ann (unfold access in refl)

authenticate-IsIdentified_example :
    IsIdentified verify_token get_api_key provision verifier request ann
authenticate-IsIdentified_example =
    authenticate-IsIdentified verify_token get_api_key provision verifier request ann
      (unfold access in refl)

abbrev grants : List Grant
grants =
    record { tenant_id = "acme"; subject = "ann"; role = "viewer" }
    ∷ record { tenant_id = "acme"; subject = "/ops"; role = "editor" }
    ∷ record { tenant_id = "globex"; subject = "ann"; role = "admin" }
    ∷ []

abbrev ann_of_ops : Entity
ann_of_ops = record ann { groups = "/ops" ∷ [] }

assert_tenant_role-HasGrant_example :
    ((is_role ann_of_ops.role "superadmin" ≡ true)
      ⊎ HasGrant "acme" (get_subjects ann_of_ops) "editor" grants)
    × (rank "viewer" ≤ rank "editor")
assert_tenant_role-HasGrant_example =
    assert_tenant_role-HasGrant ann_of_ops "acme" "viewer" "editor" grants (unfold access in refl)

abbrev unused_yet : Usage
unused_yet = record { last_used = []; updates = [] }
