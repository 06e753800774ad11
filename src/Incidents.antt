-- ===== src/Incidents.antt =====
-- src/models/db/incident.py, src/models/db/alert.py and src/repositories/db.py: incidents, the alerts
-- linked to them, and the tables they are kept in. The database does not fail, but for the
-- constraints of the schema.
pub mod Summary
pub mod Linking
pub mod Changes
pub mod Counted
pub mod Counting
pub mod Invariant
pub mod Linked
pub mod Stale
pub mod Merging
pub mod Kept
pub mod Removed
pub mod Emptied
pub mod Enrichment
pub mod Statuses
pub mod Batch
pub mod Joined
pub mod Resolved
pub mod Notes
pub mod Tests
use keep_api_gateway.Prelude.{
  ℕ, zero, suc, String, Bool, true, false, not, ◌&&◌, Option, none, some, List, [], ◌∷◌, ◌++◌, ◌==◌,
  contains, if◌then◌else◌, Result, ok, err,
}
use keep_api_gateway.Alerts.{LastAlert}
use keep_api_gateway.Alerts.Enrich.{find_row}

-- The columns of `incident` that linking, merging and changes of status read or write; `severity` is
-- the order of the severity.
pub record Incident : Type 0 where
  pub id : String
  pub tenant_id : String
  pub status : String
  pub severity : ℕ
  pub forced_severity : Bool
  pub alerts_count : ℕ
  pub affected_services : List String
  pub sources : List String
  pub start_time : Option ℕ
  pub last_seen_time : Option ℕ
  pub end_time : Option ℕ
  pub assignee : Option String
  pub is_candidate : Bool
  pub is_visible : Bool
  pub merged_into_incident_id : Option String
  pub merged_at : Option ℕ
  pub merged_by : Option String

-- What linking reads of an `Alert`, one occurrence.
pub record Alert : Type 0 where
  pub id : String
  pub tenant_id : String
  pub fingerprint : String
  pub service : Option String
  pub provider_type : String
  pub severity : Option String
  pub status : Option String
  pub timestamp : ℕ
  pub received_at : Option ℕ

-- A link is active as long as `deleted_at` is none, `NULL_FOR_DELETED_AT` in the source.
pub record LastAlertToIncident : Type 0 where
  pub tenant_id : String
  pub fingerprint : String
  pub incident_id : String
  pub is_created_by_ai : Bool
  pub deleted_at : Option ℕ

pub record Tables : Type 0 where
  pub incidents : List Incident
  pub alerts : List Alert
  pub last_alerts : List LastAlert
  pub links : List LastAlertToIncident

pub data Failure : Type 0 where
  http : ℕ → Failure
  key_error name_error value_error attribute_error integrity_error : Failure
  destination_incident_not_found : Failure

-- What a call returns or raises, and the tables as it leaves them: what was committed before an
-- exception stays.
abbrev pub Outcome : Type 0 → Type 0
Outcome A = Result Failure A × Tables

-- What follows a call that returned.
abbrev pub and_then : {A B : Type 0} → Outcome A → (A → Tables → Outcome B) → Outcome B
and_then (ok answer, tables) next = next answer tables
and_then (err failure, tables) next = (err failure, tables)

abbrev pub is_none {ℓ} : {A : Type ℓ} → Option A → Bool
is_none none = true
is_none (some x) = false

abbrev pub is_link : (tenant_id incident_id : String) → LastAlertToIncident → Bool
is_link tenant_id incident_id link = link.tenant_id == tenant_id && link.incident_id == incident_id

abbrev pub is_active : (tenant_id incident_id : String) → LastAlertToIncident → Bool
is_active tenant_id incident_id link = is_link tenant_id incident_id link && is_none link.deleted_at

-- The fingerprints of the active links of an incident.
unfoldable pub linked : (tenant_id incident_id : String) → List LastAlertToIncident → List String
linked tenant_id incident_id [] = []
linked tenant_id incident_id (link ∷ links) =
    let rest = linked tenant_id incident_id links in
    if is_active tenant_id incident_id link then link.fingerprint ∷ rest else rest

-- The fingerprints of the links that were deleted.
unfoldable pub unlinked : (tenant_id incident_id : String) → List LastAlertToIncident → List String
unlinked tenant_id incident_id [] = []
unlinked tenant_id incident_id (link ∷ links) =
    let rest = unlinked tenant_id incident_id links in
    if is_link tenant_id incident_id link && not (is_none link.deleted_at)
    then link.fingerprint ∷ rest
    else rest

abbrev pub has_id : (tenant_id incident_id : String) → Incident → Bool
has_id tenant_id incident_id incident =
    incident.tenant_id == tenant_id && incident.id == incident_id

unfoldable pub find_incident : (tenant_id incident_id : String) → List Incident → Option Incident
find_incident tenant_id incident_id [] = none
find_incident tenant_id incident_id (incident ∷ incidents) =
    if has_id tenant_id incident_id incident
    then some incident
    else find_incident tenant_id incident_id incidents

-- `update(Incident).where(tenant_id, id)`
unfoldable pub update_incident :
    (tenant_id incident_id : String) → (Incident → Incident) → List Incident → List Incident
update_incident tenant_id incident_id change [] = []
update_incident tenant_id incident_id change (incident ∷ incidents) =
    let rest = update_incident tenant_id incident_id change incidents in
    if has_id tenant_id incident_id incident then change incident ∷ rest else incident ∷ rest

abbrev pub has_last_alert : Tables → String → String → Bool
has_last_alert tables tenant_id fingerprint =
    not (is_none (find_row tenant_id fingerprint tables.last_alerts))

unfoldable pub find_alert : String → List Alert → Option Alert
find_alert id [] = none
find_alert id (alert ∷ alerts) = if alert.id == id then some alert else find_alert id alerts

unfoldable pub filter : (String → Bool) → List String → List String
filter test [] = []
filter test (x ∷ xs) = let rest = filter test xs in if test x then x ∷ rest else rest

-- `set(xs)`, in the order of the last occurrences.
unfoldable pub distinct : List String → List String
distinct [] = []
distinct (x ∷ xs) = let rest = distinct xs in if contains xs x then rest else x ∷ rest
