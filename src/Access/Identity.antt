-- ===== src/Access/Identity.antt =====
-- Where the entity of a request comes from.
use keep_api_gateway.Prelude.{
  ap, subst, sym, ◌∙◌, String, ◌==◌, eq_iff, Bool, true, false, Option, none, some, ◌≡◌, ◌⊎◌, inl,
  inr, refl, if◌then◌else◌, Result, ok, err, bind-ok, guard-ok, require-ok,
}
use keep_api_gateway.Access.{Refusal, http, key_error, attribute_error, Entity}
use keep_api_gateway.Access.Verifier.{
  Verifier, Request, ApiKey, given, Extracted, key, entity, cloudwatch_entity, extract_api_key,
  or_text, own_entity, impersonated, provision_if, impersonate, with_api_key, verify_api_key,
  refused, with_extracted, with_token, authenticate,
}
use keep_api_gateway.Access.Presented.{
  IsSent, IsMissing, Presents, IsUnauthenticated, IsExtracted, given-IsSent, given-IsMissing,
  keys-IsExtracted,
}

refused-ok : (r : Result Refusal Entity) (e : Entity) → refused r ≡ ok e → r ≡ ok e
refused-ok (ok f) e h = h
refused-ok (err (http c)) e h = absurd (cc)
refused-ok (err key_error) e h = absurd (cc)
refused-ok (err attribute_error) e h = absurd (cc)

abbrev entity_of : Entity → Result Refusal Entity → Entity
entity_of other (ok e) = e
entity_of other (err refusal) = other

ok_same : (x y : Entity) → ◌≡◌ {A = Result Refusal Entity} (ok x) (ok y) → x ≡ y
ok_same x y e = ap (entity_of x) e

-- The entity of a webhook, of the tenant that the query names or of the default one.
abbrev pub IsWebhook : Request → Entity → Type 0
IsWebhook q e =
    (e.role ≡ some "webhook")
    × (e.email ≡ "system")
    × ((q.query_tenant_id ≡ some e.tenant_id)
        ⊎ ((q.query_tenant_id ≡ none) × (e.tenant_id ≡ "keep")))

-- The entity of a key: the key's creator with the key's role, or the user and the role that the headers
-- name, with impersonation enabled and for a key of the role admin; either is of the key's tenant.
abbrev pub IsOfKey : Verifier → Request → ApiKey → Entity → Type 0
IsOfKey v q k e =
    (e.tenant_id ≡ k.tenant_id)
    × (((e.email ≡ k.created_by) × (e.role ≡ some k.role))
        ⊎ ((v.impersonation_enabled ≡ true)
            × (k.role ≡ "admin")
            × IsSent q.user_header e.email
            × ((role : String) × (e.role ≡ some role) × IsSent q.role_header role)))

cloudwatch-IsWebhook : (q : Request) → IsWebhook q (cloudwatch_entity q)
cloudwatch-IsWebhook q = (refl, refl, by_tenant q.query_tenant_id)
  where
    by_tenant :
        (o : Option String)
        → (o ≡ some (or_text o "keep")) ⊎ ((o ≡ none) × (or_text o "keep" ≡ "keep"))
    by_tenant none = inr (refl, refl)
    by_tenant (some t) = inl refl

module _ (verify_token : String → Result Refusal Entity) (get_api_key : String → Option ApiKey)
    (provision : (tenant_id user role : String) → Result Refusal (Unit {0})) (v : Verifier) where
  abbrev pub IsIdentified : Request → Entity → Type 0
  IsIdentified q e =
      ((t : String) × IsSent q.token t × (verify_token t ≡ ok e))
      ⊎ (IsMissing q.token
          × ((IsUnauthenticated v q × IsWebhook q e)
              ⊎ ((t : String) × (k : ApiKey) × Presents q t
                  × (get_api_key t ≡ some k)
                  × IsOfKey v q k e)))

  own-IsOfKey :
      (q : Request) (k : ApiKey) (e : Entity)
      → ◌≡◌ {A = Result Refusal Entity} (ok (own_entity k)) (ok e)
      → IsOfKey v q k e
  own-IsOfKey q k e h = subst (IsOfKey v q k) (ok_same (own_entity k) e h) (refl, inl (refl, refl))

  impersonate-IsOfKey :
      (q : Request) (user role : Option String) (k : ApiKey) (e : Entity)
      → given q.user_header ≡ user
      → given q.role_header ≡ role
      → v.impersonation_enabled ≡ true
      → impersonate verify_token get_api_key provision v user role k ≡ ok e
      → IsOfKey v q k e
  impersonate-IsOfKey q (some user) (some role) k e u p i h =
      let g = require-ok (k.role == "admin") (http 401) _ e h in
      let r =
        bind-ok (provision_if verify_token get_api_key provision v v.auto_provision k user role) _ e
          g.1 in
      subst (IsOfKey v q k) (ok_same (impersonated k user role) e r.2) (
        refl,
        inr (
          i,
          (eq_iff k.role "admin").0 g.0,
          given-IsSent q.user_header user u,
          (role, refl, given-IsSent q.role_header role p),
        ),
      )
  impersonate-IsOfKey q (some user) none k e u p i h = own-IsOfKey q k e h
  impersonate-IsOfKey q none role k e u p i h = own-IsOfKey q k e h

  with_key-IsOfKey :
      (b : Bool) (q : Request) (k : ApiKey) (e : Entity)
      → v.impersonation_enabled ≡ b
      → (if b
          then impersonate verify_token get_api_key provision v
              (given q.user_header)
              (given q.role_header)
              k
          else ok (own_entity k))
        ≡ ok e
      → IsOfKey v q k e
  with_key-IsOfKey true q k e i h =
      impersonate-IsOfKey q (given q.user_header) (given q.role_header) k e refl refl i h
  with_key-IsOfKey false q k e i h = own-IsOfKey q k e h

  with_api_key-IsOfKey :
      (t : String) (q : Request) (e : Entity) (o : Option ApiKey)
      → get_api_key t ≡ o
      → with_api_key verify_token get_api_key provision v o q ≡ ok e
      → (k : ApiKey) × (get_api_key t ≡ some k) × IsOfKey v q k e
  with_api_key-IsOfKey t q e none g h = absurd (cc)
  with_api_key-IsOfKey t q e (some k) g h =
      (k, g, with_key-IsOfKey v.impersonation_enabled q k e refl h)

  extracted-IsIdentified :
      (q : Request) (x : Extracted) (e : Entity)
      → IsMissing q.token
      → IsExtracted v q (ok x)
      → with_extracted verify_token get_api_key provision v q x ≡ ok e
      → IsIdentified q e
  unfolding verify_api_key
  extracted-IsIdentified q (entity f) e m w h =
      inr (m, inl (w.0, subst (IsWebhook q) (sym w.1 ∙ ok_same f e h) (cloudwatch-IsWebhook q)))
  extracted-IsIdentified q (key t) e m w h =
      let g = guard-ok (t == "") (http 401) _ e h in
      let (k, found, own) = with_api_key-IsOfKey t q e (get_api_key t) refl (refused-ok _ e g.1) in
      inr (m, inr (t, k, w, found, own))

  token-IsIdentified :
      (o : Option String) (q : Request) (e : Entity)
      → given q.token ≡ o
      → with_token verify_token get_api_key provision v o q ≡ ok e
      → IsIdentified q e
  unfolding extract_api_key
  token-IsIdentified (some t) q e g h =
      inl (t, given-IsSent q.token t g, refused-ok (verify_token t) e h)
  token-IsIdentified none q e g h =
      let r =
        bind-ok (extract_api_key v q) (with_extracted verify_token get_api_key provision v q) e h in
      extracted-IsIdentified q r.0 e (given-IsMissing q.token g)
        (subst (IsExtracted v q) r.1 (keys-IsExtracted v q)) r.2

  -- An entity is that of the token the request brings, as the identity manager verified it; or,
  -- without a token, one of two. It is the webhook of the tenant that the query names or of the default
  -- one, where the setting allows it, for a request of Amazon's notification service at the address of
  -- CloudWatch with neither a password nor a key. Or it is of the tenant of the known key that the
  -- request presents, in its header for keys, else in its query, else in its `Authorization`: the key's
  -- creator with the key's role, or, with impersonation enabled and for a key of the role admin, the
  -- user and the role that the headers name.
  pub authenticate-IsIdentified :
      (q : Request) (e : Entity)
      → authenticate verify_token get_api_key provision v q ≡ ok e
      → IsIdentified q e
  unfolding authenticate
  authenticate-IsIdentified q e h = token-IsIdentified (given q.token) q e refl h
