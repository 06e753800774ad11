-- ===== src/Incidents/Enrichment.antt =====
-- `_enrich_incident` of src/repositories/db.py: the enrichments of an incident, a dict with any keys.
-- The commits succeed.
use keep_api_gateway.Prelude.{
  String, Bool, not, ◌&&◌, ◌||◌, List, [], ◌∷◌, ◌++◌, ◌==◌, if◌then◌else◌,
}
use keep_api_gateway.Prelude.Dict
use keep_api_gateway.Prelude.Dict.{Dict}
use keep_api_gateway.Prelude.Json.{Json}
use keep_api_gateway.Alerts.{or_null, truthy}
use keep_api_gateway.Alerts.Normalize.{is_null}
use keep_api_gateway.Alerts.Enrich.{is_blank, AlertAudit, Call, audit_of}

pub record IncidentEnrichment : Type 0 where
  pub tenant_id : String
  pub incident_id : String
  pub enrichments : Dict Json

-- `{**old, **new}`
unfoldable pub put_all : (new : Dict Json) → (old : Dict Json) → Dict Json
put_all [] old = old
put_all ((key, v) ∷ new) old = put_all new (Dict.put old key v)

-- An incoming note that is missing, falsy or white space.
abbrev pub is_no_note : Json → Bool
is_no_note note = not (truthy note) || is_blank note

unfoldable pub keep_note : (old new : Dict Json) → Dict Json → Dict Json
keep_note old new merged =
    let note = or_null (Dict.get old "note") in
    if is_no_note (or_null (Dict.get new "note")) && truthy note
    then Dict.put merged "note" note
    else merged

-- The keys that come with None are taken out.
unfoldable pub drop_nulls : (new : Dict Json) → Dict Json → Dict Json
drop_nulls [] merged = merged
drop_nulls ((key, v) ∷ new) merged =
    drop_nulls new (if is_null v then Dict.remove merged key else merged)

unfoldable pub new_enrichment_data : Bool → (old new : Dict Json) → Dict Json
new_enrichment_data force old new =
    drop_nulls new (if force then new else keep_note old new (put_all new old))

abbrev pub is_enrichment : (tenant_id incident_id : String) → IncidentEnrichment → Bool
is_enrichment tenant_id incident_id row =
    row.tenant_id == tenant_id && row.incident_id == incident_id

-- The row of the incident gets the new data; without one, it is created with the enrichments.
unfoldable pub upsert_enrichment :
    Bool
    → (tenant_id incident_id : String) → Dict Json
    → List IncidentEnrichment
    → List IncidentEnrichment
upsert_enrichment force tenant_id incident_id new [] =
    record { tenant_id = tenant_id; incident_id = incident_id; enrichments = new } ∷ []
upsert_enrichment force tenant_id incident_id new (row ∷ rows) =
    let rest = upsert_enrichment force tenant_id incident_id new rows in
    if is_enrichment tenant_id incident_id row
    then record row { enrichments = new_enrichment_data force row.enrichments new } ∷ rows
    else row ∷ rest

-- The whole call, with its audit.
unfoldable pub enrich_incident :
    Call
    → String
    → Dict Json
    → List IncidentEnrichment × List AlertAudit
    → List IncidentEnrichment × List AlertAudit
enrich_incident call incident_id new (rows, audits) = (
  upsert_enrichment call.force call.tenant_id incident_id new rows,
  audits ++ audit_of call incident_id,
)
