-- ===== src/Alerts/Enrich.antt =====
-- The writing of enrichments: `_apply_enrichments_to_last_alert`, `_enrich_entity` and `batch_enrich`
-- of src/repositories/db.py for alerts, and `_enrich_entity_impl` with its two helpers of
-- src/services/enrichments_bl.py. The commits succeed.
use keep_api_gateway.Prelude.{
  ℕ, String, nat_eq, leb, any, Bool, true, false, not, ◌&&◌, ◌||◌, Option, none, some, List, [],
  ◌∷◌, ◌++◌, ◌==◌, ◌≡◌, refl, if◌then◌else◌, Result, ok, ◌>>=◌,
}
use Prim.Native.Char.{code}
use keep_api_gateway.Prelude.Dict
use keep_api_gateway.Prelude.Dict.{Dict}
use keep_api_gateway.Prelude.Json.{Json}
use keep_api_gateway.Prelude.Json.Json.{null, bool, str}
use keep_api_gateway.Alerts.{LastAlert, set_column}
use keep_api_gateway.Alerts.Normalize.{Refusal, has_key, normalize_enrichments}

-- `str.isspace` of one character
abbrev is_space : ℕ → Bool
is_space c =
    any (nat_eq c) (32 ∷ 133 ∷ 160 ∷ 5760 ∷ 8232 ∷ 8233 ∷ 8239 ∷ 8287 ∷ 12288 ∷ [])
    || (leb 9 c && leb c 13 || leb 28 c && leb c 31)
    || (leb 8192 c && leb c 8202)

whitespace : String → Bool
whitespace String.[] = true
whitespace (String.◌∷◌ c s) = is_space (code c) && whitespace s

-- `not value.strip()` of a text, and the value None.
unfoldable pub is_blank : Json → Bool
unfolding whitespace
is_blank null = true
is_blank (str s) = whitespace s
is_blank _ = false

-- The note-guard: a blank note is not written unless the caller forces it.
abbrev pub is_kept : Bool → String → Json → Bool
is_kept force key v = (key == "note" && not force) && is_blank v

unfoldable pub write_column : Bool → String → Json → LastAlert → LastAlert
write_column force key v row = if is_kept force key v then row else set_column row key v

unfoldable pub apply_enrichments : Bool → Dict Json → LastAlert → LastAlert
apply_enrichments force [] row = row
apply_enrichments force ((key, v) ∷ d) row =
    apply_enrichments force d (write_column force key v row)

pub record AlertAudit : Type 0 where
  pub tenant_id : String
  pub fingerprint : String
  pub user_id : String
  pub action : String
  pub description : String

-- The tables that enriching reads and writes.
pub record Store : Type 0 where
  pub last_alerts : List LastAlert
  pub audits : List AlertAudit

-- The arguments of a call that every fingerprint of it shares.
pub record Call : Type 0 where
  pub tenant_id : String
  pub action_type : String
  pub action_callee : String
  pub action_description : String
  pub force : Bool
  pub audit_enabled : Bool
  pub strict : Bool

abbrev pub is_row : (tenant_id fingerprint : String) → LastAlert → Bool
is_row tenant_id fingerprint row = row.tenant_id == tenant_id && row.fingerprint == fingerprint

-- `get_last_alert_by_fingerprint`
unfoldable pub find_row : (tenant_id fingerprint : String) → List LastAlert → Option LastAlert
find_row tenant_id fingerprint [] = none
find_row tenant_id fingerprint (row ∷ rows) =
    if is_row tenant_id fingerprint row then some row else find_row tenant_id fingerprint rows

-- The update of the row with a key, which is the primary key.
unfoldable pub update_row :
    (tenant_id fingerprint : String) → (LastAlert → LastAlert) → List LastAlert → List LastAlert
update_row tenant_id fingerprint change [] = []
update_row tenant_id fingerprint change (row ∷ rows) =
    let rest = update_row tenant_id fingerprint change rows in
    if is_row tenant_id fingerprint row then change row ∷ rows else row ∷ rest

abbrev pub audit_of : Call → String → List AlertAudit
audit_of call fingerprint =
    if call.audit_enabled
    then record {
      tenant_id = call.tenant_id;
      fingerprint = fingerprint;
      user_id = call.action_callee;
      action = call.action_type;
      description = call.action_description;
    }
      ∷ []
    else []

abbrev pub write_rows : Call → Bool → Dict Json → String → List LastAlert → List LastAlert
write_rows call force normalized fingerprint rows =
    update_row call.tenant_id fingerprint (apply_enrichments force normalized) rows

-- Without a row for the fingerprint, only the audit is written.
unfoldable pub write : Call → Dict Json → String → Store → Store
write call normalized fingerprint s = record {
  last_alerts = write_rows call call.force normalized fingerprint s.last_alerts;
  audits = s.audits ++ audit_of call fingerprint;
}

-- `_enrich_entity` with entity_type "alert"
unfoldable pub enrich_entity : Call → Dict Json → String → Store → Result Refusal Store
enrich_entity call enrichments fingerprint s =
    normalize_enrichments call.strict enrichments >>= λ normalized.
    ok (write call normalized fingerprint s)

-- The loop of `batch_enrich`, which never forces: the audits are collected and added at the end.
unfoldable pub batch_rows : Call → Dict Json → List String → List LastAlert → List LastAlert
batch_rows call normalized [] rows = rows
batch_rows call normalized (fingerprint ∷ fingerprints) rows =
    batch_rows call normalized fingerprints (write_rows call false normalized fingerprint rows)

unfoldable pub batch_audits : Call → List String → List AlertAudit
batch_audits call [] = []
batch_audits call (fingerprint ∷ fingerprints) =
    audit_of call fingerprint ++ batch_audits call fingerprints

unfoldable pub batch_enrich : Call → Dict Json → List String → Store → Result Refusal Store
batch_enrich call enrichments fingerprints s =
    normalize_enrichments call.strict enrichments >>= λ normalized. ok (record {
      last_alerts = batch_rows call normalized fingerprints s.last_alerts;
      audits = s.audits ++ batch_audits call fingerprints;
    })

-- `_apply_dispose_on_new_alert`
unfoldable pub apply_dispose_on_new_alert : Dict Json → Bool → Dict Json
apply_dispose_on_new_alert enrichments dispose =
    if has_key enrichments "status" || has_key enrichments "dismiss_mode"
    then Dict.put enrichments "status_disposable" (bool dispose)
    else enrichments

-- What an enrichment sends: the enrichments of the event, and those of the document in Elasticsearch.
pub record Sent : Type 0 where
  pub event : Option (Dict Json)
  pub elastic : Option (Dict Json)

-- `_enrich_entity_impl` with entity_type "alert"; the fields of the event that name the action are
-- left out.
unfoldable pub enrich_entity_impl :
    Call
    → (dispose produce_event should_exist : Bool) → Dict Json
    → String
    → Store
    → Result Refusal (Sent × Store)
enrich_entity_impl call dispose produce_event should_exist enrichments fingerprint s =
    normalize_enrichments call.strict (apply_dispose_on_new_alert enrichments dispose)
    >>= λ normalized. enrich_entity call normalized fingerprint s >>= λ after. ok (
      record {
        event = if produce_event then some normalized else none;
        elastic = if should_exist then some normalized else none;
      },
      after,
    )

-- The loop of `batch_enrich` of enrichments_bl.py: no call forces or sends an event of its own.
unfoldable pub enrich_each : Call → Bool → Dict Json → List String → Store → Result Refusal Store
enrich_each call dispose enrichments [] s = ok s
enrich_each call dispose enrichments (fingerprint ∷ fingerprints) s =
    enrich_entity_impl call dispose false true enrichments fingerprint s >>= λ done.
    enrich_each call dispose enrichments fingerprints done.1

note_runs : is_blank (str " \t\n") ≡ true
unfolding is_blank
note_runs = refl
