-- ===== src/Incidents/Statuses.antt =====
-- `is_all_alerts_in_status` and `is_all_alerts_resolved` of src/repositories/db.py: whether all alerts,
-- of an incident or of some fingerprints, are in one status. A status is a text of a column, or NULL.
use keep_api_gateway.Prelude.{
  String, nat_eq, any, Bool, false, not, ◌&&◌, Option, none, some, List, [], ◌∷◌, ◌==◌, contains,
  if◌then◌else◌,
}
use keep_api_gateway.Prelude.Json.{Json}
use keep_api_gateway.Prelude.Json.Json.{null, str}
use keep_api_gateway.Alerts.{LastAlert, column}
use keep_api_gateway.Alerts.Enrich.{find_row}
use keep_api_gateway.Incidents.{
  Incident, Alert, LastAlertToIncident, Tables, is_none, has_last_alert, find_alert,
}

abbrev pub with_row : Option LastAlert → List LastAlert → List LastAlert
with_row none rest = rest
with_row (some row) rest = row ∷ rest

-- The last alerts that the active links of an incident lead to.
unfoldable pub linked_rows : String → List LastAlert → List LastAlertToIncident → List LastAlert
linked_rows incident_id rows [] = []
linked_rows incident_id rows (link ∷ links) =
    let rest = linked_rows incident_id rows links in
    if is_none link.deleted_at && link.incident_id == incident_id
    then with_row (find_row link.tenant_id link.fingerprint rows) rest
    else rest

abbrev pub rows_asked : Option Incident → Tables → List LastAlert
rows_asked none tables = tables.last_alerts
rows_asked (some incident) tables = linked_rows incident.id tables.last_alerts tables.links

-- The fingerprints restrict the rows only where some are given.
abbrev pub with_fingerprints : List String → List LastAlert → List LastAlert
with_fingerprints [] rows = rows
with_fingerprints (fingerprint ∷ fingerprints) rows = kept rows
  where
    kept : List LastAlert → List LastAlert
    kept [] = []
    kept (row ∷ rows) =
        let rest = kept rows in
        if contains (fingerprint ∷ fingerprints) row.fingerprint then row ∷ rest else rest

-- A row without its alert is left out.
abbrev pub with_status :
    Json → Option Alert → List (Json × Option String) → List (Json × Option String)
with_status status none rest = rest
with_status status (some alert) rest = (status, alert.status) ∷ rest

-- The status of a row and of the alert that it points to.
unfoldable pub statuses : List Alert → List LastAlert → List (Json × Option String)
statuses alerts [] = []
statuses alerts (row ∷ rows) =
    with_status (column row "status") (find_alert row.alert_id alerts) (statuses alerts rows)

-- `!=` of SQL, which does not hold of NULL.
abbrev pub is_other : String → Option String → Bool
is_other status none = false
is_other status (some s) = not (s == status)

abbrev pub is_out_of : String → Json × Option String → Bool
is_out_of status (null, of_alert) = is_other status of_alert
is_out_of status (str s, of_alert) = is_other status (some s)
is_out_of status (_, of_alert) = false

unfoldable pub is_all_alerts_in_status : List String → Option Incident → String → Tables → Bool
is_all_alerts_in_status fingerprints incident status tables =
    not (is_empty_incident incident)
    && not (
        any (is_out_of status)
          (statuses tables.alerts (with_fingerprints fingerprints (rows_asked incident tables))))
  where
    is_empty_incident : Option Incident → Bool
    is_empty_incident none = false
    is_empty_incident (some incident) = nat_eq incident.alerts_count 0

abbrev pub is_all_alerts_resolved : List String → Option Incident → Tables → Bool
is_all_alerts_resolved fingerprints incident tables =
    is_all_alerts_in_status fingerprints incident "resolved" tables

-- `check_incident_resolution` of src/services/enrichments_bl.py with `get_incidents_by_alert_fingerprint`:
-- the incidents that an active link of the alert leads to are resolved, of whatever status they are,
-- when the column `resolve_on`, which nothing here writes, tells to and their alerts are all resolved.
abbrev pub is_link_of : (tenant_id fingerprint : String) → Incident → LastAlertToIncident → Bool
is_link_of tenant_id fingerprint incident link =
    (link.tenant_id == tenant_id && link.fingerprint == fingerprint)
    && (is_none link.deleted_at && link.incident_id == incident.id)

abbrev pub should_resolve :
    (resolve_on : String → String) → (tenant_id fingerprint : String) → Tables → Incident → Bool
should_resolve resolve_on tenant_id fingerprint tables incident =
    any (is_link_of tenant_id fingerprint incident) tables.links
    && (resolve_on incident.id == "all_resolved"
        && is_all_alerts_resolved [] (some incident) tables)

abbrev pub resolve_if : Bool → Incident → Incident
resolve_if should incident = if should then record incident { status = "resolved" } else incident

unfoldable pub resolve_each : (Incident → Bool) → List Incident → List Incident
resolve_each test [] = []
resolve_each test (incident ∷ incidents) =
    resolve_if (test incident) incident ∷ resolve_each test incidents

unfoldable pub check_incident_resolution :
    (resolve_on : String → String) → (tenant_id fingerprint : String) → Tables → Tables
check_incident_resolution resolve_on tenant_id fingerprint tables =
    if has_last_alert tables tenant_id fingerprint
    then record tables {
      incidents =
          resolve_each (should_resolve resolve_on tenant_id fingerprint tables) tables.incidents;
    }
    else tables
