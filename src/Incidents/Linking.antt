-- ===== src/Incidents/Linking.antt =====
-- `add_alerts_to_incident` and `remove_alerts_to_incident_by_incident_id` of src/repositories/db.py.
use keep_api_gateway.Prelude.{
  ℕ, zero, suc, String, Bool, not, ◌&&◌, Option, none, some, List, [], ◌∷◌, ◌++◌, length, all,
  contains, if◌then◌else◌, Result, ok, err,
}
use keep_api_gateway.Incidents.{
  Incident, Alert, LastAlertToIncident, Tables, Failure, key_error, name_error, integrity_error,
  Outcome, is_active, linked, unlinked, update_incident, find_incident, has_last_alert, filter,
  distinct,
}
use keep_api_gateway.Incidents.Summary.{
  last_occurrences, AlertsData, get_alerts_data_for_incident, max, occurrences, first_time,
  last_time,
}

-- The arguments of a call.
pub record Adding : Type 0 where
  pub is_created_by_ai : Bool
  pub override_count : Bool
  pub exclude_unlinked_alerts : Bool

-- The fingerprints of a query that joins the links with `lastalert`.
abbrev pub with_last_alert : Tables → String → List String → List String
with_last_alert tables tenant_id fingerprints =
    filter (has_last_alert tables tenant_id) fingerprints

abbrev pub is_new : Adding → Tables → (tenant_id incident_id : String) → String → Bool
is_new adding tables tenant_id incident_id fingerprint =
    not (
      contains (with_last_alert tables tenant_id (linked tenant_id incident_id tables.links))
        fingerprint)
    && not (
        adding.exclude_unlinked_alerts
        && contains (with_last_alert tables tenant_id (unlinked tenant_id incident_id tables.links))
            fingerprint)

unfoldable pub new_fingerprints :
    Adding → Tables → (tenant_id incident_id : String) → List String → List String
new_fingerprints adding tables tenant_id incident_id fingerprints =
    distinct (filter (is_new adding tables tenant_id incident_id) fingerprints)

unfoldable pub new_links :
    Bool → (tenant_id incident_id : String) → List String → List LastAlertToIncident
new_links by_ai tenant_id incident_id [] = []
new_links by_ai tenant_id incident_id (fingerprint ∷ fingerprints) =
    record {
      tenant_id = tenant_id;
      fingerprint = fingerprint;
      incident_id = incident_id;
      is_created_by_ai = by_ai;
      deleted_at = none;
    }
    ∷ new_links by_ai tenant_id incident_id fingerprints

abbrev pub with_links : Tables → List LastAlertToIncident → Tables
with_links tables links = record tables { links = links }

-- `select(count(fingerprint))` over the active links
abbrev pub count_links : Tables → (tenant_id incident_id : String) → ℕ
count_links tables tenant_id incident_id = length (linked tenant_id incident_id tables.links)

abbrev pub raised_severity : AlertsData → Incident → ℕ
raised_severity alerts_data incident =
    if incident.forced_severity then incident.severity else elim incident.alerts_count [
      | zero ↦ alerts_data.max_severity
      | suc n ↦ max incident.severity alerts_data.max_severity
    ]

-- The update of an incident after new links.
abbrev pub sum_up_added :
    Tables → (tenant_id incident_id : String) → AlertsData → Incident → Incident
sum_up_added tables tenant_id incident_id alerts_data incident =
    let seen = occurrences tenant_id (linked tenant_id incident_id tables.links) tables.alerts in
    record incident {
      alerts_count = count_links tables tenant_id incident_id;
      last_seen_time = last_time seen;
      start_time = first_time seen;
      affected_services = distinct (incident.affected_services ++ alerts_data.services);
      severity = raised_severity alerts_data incident;
      sources = distinct (incident.sources ++ alerts_data.sources);
    }

-- What follows the commit of the new links; `alerts_data` has no "count".
abbrev pub finish_adding :
    Adding
    → (tenant_id incident_id : String) → Tables
    → Result Failure AlertsData
    → Outcome (Unit {0})
finish_adding adding tenant_id incident_id tables (err failure) = (err failure, tables)
finish_adding adding tenant_id incident_id tables (ok alerts_data) =
    if adding.override_count then (err key_error, tables) else (
      ok tt,
      record tables {
        incidents =
            update_incident tenant_id incident_id
              (sum_up_added tables tenant_id incident_id alerts_data) tables.incidents;
      },
    )

-- The new links are refused, all of them, where one has no row in `lastalert` to refer to.
unfoldable pub link_new :
    Adding → (tenant_id incident_id : String) → List String → Tables → Outcome (Unit {0})
link_new adding tenant_id incident_id [] tables = (ok tt, tables)
link_new adding tenant_id incident_id (fingerprint ∷ fingerprints) tables =
    let new = fingerprint ∷ fingerprints in
    let linking =
      with_links tables
        (tables.links ++ new_links adding.is_created_by_ai tenant_id incident_id new) in
    if all (has_last_alert tables tenant_id) new
    then finish_adding adding tenant_id incident_id linking
        (get_alerts_data_for_incident linking tenant_id new)
    else (err integrity_error, tables)

unfoldable pub add_alerts_to_incident :
    Adding → (tenant_id incident_id : String) → List String → Tables → Outcome (Unit {0})
add_alerts_to_incident adding tenant_id incident_id fingerprints tables =
    link_new adding tenant_id incident_id
      (new_fingerprints adding tables tenant_id incident_id fingerprints) tables

abbrev pub is_removed : (tenant_id incident_id : String) → List String → LastAlertToIncident → Bool
is_removed tenant_id incident_id fingerprints link =
    is_active tenant_id incident_id link && contains fingerprints link.fingerprint

unfoldable pub unlink :
    (now : ℕ) (tenant_id incident_id : String)
    → List String
    → List LastAlertToIncident
    → List LastAlertToIncident
unlink now tenant_id incident_id fingerprints [] = []
unlink now tenant_id incident_id fingerprints (link ∷ links) =
    let rest = unlink now tenant_id incident_id fingerprints links in
    if is_removed tenant_id incident_id fingerprints link
    then record link { deleted_at = some now } ∷ rest
    else link ∷ rest

unfoldable pub count_removed :
    (tenant_id incident_id : String) → List String → List LastAlertToIncident → ℕ
count_removed tenant_id incident_id fingerprints [] = 0
count_removed tenant_id incident_id fingerprints (link ∷ links) =
    let rest = count_removed tenant_id incident_id fingerprints links in
    if is_removed tenant_id incident_id fingerprints link then suc rest else rest

-- The alerts that are still linked, as the queries of the last part join them.
abbrev pub remaining : Tables → (tenant_id incident_id : String) → List Alert
remaining tables tenant_id incident_id =
    last_occurrences tables tenant_id (linked tenant_id incident_id tables.links)

-- The update where no alert is linked any more: each service and source of the removed alerts goes, the
-- severity falls to LOW unless it was forced, and there are no times.
abbrev pub sum_up_removed :
    Tables → (tenant_id incident_id : String) → AlertsData → Incident → Incident
sum_up_removed tables tenant_id incident_id alerts_data incident = record incident {
  alerts_count = count_links tables tenant_id incident_id;
  last_seen_time = none;
  start_time = none;
  affected_services =
      filter (λ s. not (contains alerts_data.services s)) incident.affected_services;
  severity = if incident.forced_severity then incident.severity else 1;
  sources = filter (λ s. not (contains alerts_data.sources s)) incident.sources;
}

-- The severity of an alert that is still linked is read by `get_int_severity`, a name that nothing
-- defines.
abbrev pub finish_removing :
    (tenant_id incident_id : String)
    → (removed : ℕ) → Tables
    → Result Failure AlertsData
    → List Alert
    → Outcome (Option ℕ)
finish_removing tenant_id incident_id removed tables (err failure) alerts = (err failure, tables)
finish_removing tenant_id incident_id removed tables (ok alerts_data) (alert ∷ alerts) =
    (err name_error, tables)
finish_removing tenant_id incident_id removed tables (ok alerts_data) [] = (
  ok (some removed),
  record tables {
    incidents =
        update_incident tenant_id incident_id
          (sum_up_removed tables tenant_id incident_id alerts_data) tables.incidents;
  },
)

abbrev pub remove_found :
    (now : ℕ) (tenant_id incident_id : String)
    → List String
    → Tables
    → Option Incident
    → Outcome (Option ℕ)
remove_found now tenant_id incident_id fingerprints tables none = (ok none, tables)
remove_found now tenant_id incident_id fingerprints tables (some incident) =
    let after = with_links tables (unlink now tenant_id incident_id fingerprints tables.links) in
    finish_removing tenant_id incident_id
      (count_removed tenant_id incident_id fingerprints tables.links) after
      (get_alerts_data_for_incident after tenant_id fingerprints)
      (remaining after tenant_id incident_id)

unfoldable pub remove_alerts_to_incident_by_incident_id :
    (now : ℕ) (tenant_id incident_id : String) → List String → Tables → Outcome (Option ℕ)
remove_alerts_to_incident_by_incident_id now tenant_id incident_id fingerprints tables =
    remove_found now tenant_id incident_id fingerprints tables
      (find_incident tenant_id incident_id tables.incidents)
