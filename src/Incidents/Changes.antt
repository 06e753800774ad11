-- ===== src/Incidents/Changes.antt =====
-- The other changes of incidents: merging, deletion, severity, status and confirmation, in
-- src/repositories/db.py, and the operations of src/services/incidents_bl.py that use them.
use keep_api_gateway.Prelude.{
  ℕ, String, Bool, true, false, ◌&&◌, Option, none, some, List, [], ◌∷◌, ◌++◌, ◌==◌, contains,
  if◌then◌else◌, ok, err,
}
use keep_api_gateway.Incidents.{
  Incident, Alert, Tables, Failure, http, attribute_error, destination_incident_not_found, Outcome,
  and_then, linked, update_incident, find_incident,
}
use keep_api_gateway.Incidents.Summary.{last_occurrences}
use keep_api_gateway.Incidents.Linking.{
  Adding, new_fingerprints, add_alerts_to_incident, remove_alerts_to_incident_by_incident_id,
}

abbrev pub update : (tenant_id incident_id : String) → (Incident → Incident) → Tables → Tables
update tenant_id incident_id change tables = record tables {
  incidents = update_incident tenant_id incident_id change tables.incidents;
}

abbrev pub fingerprints_of : List Alert → List String
fingerprints_of [] = []
fingerprints_of (alert ∷ alerts) = alert.fingerprint ∷ fingerprints_of alerts

-- The source incidents that are there, with the fingerprints of their alerts.
unfoldable pub source_incidents :
    Tables → String → List String → List Incident → List (String × List String)
source_incidents tables tenant_id source_ids [] = []
source_incidents tables tenant_id source_ids (incident ∷ incidents) =
    let rest = source_incidents tables tenant_id source_ids incidents in
    let alerts = last_occurrences tables tenant_id (linked tenant_id incident.id tables.links) in
    if incident.tenant_id == tenant_id && contains source_ids incident.id
    then (incident.id, fingerprints_of alerts) ∷ rest
    else rest

-- What a source incident is set to.
abbrev pub merged :
    (destination : String) (now : ℕ) (merged_by : Option String) → Incident → Incident
merged destination now merged_by incident = record incident {
  merged_into_incident_id = some destination;
  merged_at = some now;
  status = "merged";
  merged_by = merged_by;
}

unfoldable pub mark_merged :
    (tenant_id destination : String) (now : ℕ) (merged_by : Option String)
    → List String
    → Tables
    → Tables
mark_merged tenant_id destination now merged_by [] tables = tables
mark_merged tenant_id destination now merged_by (id ∷ ids) tables =
    mark_merged tenant_id destination now merged_by ids
      (update tenant_id id (merged destination now merged_by) tables)

abbrev pub plain : Adding
plain = record { is_created_by_ai = false; override_count = false; exclude_unlinked_alerts = false }

-- Whether adding reaches the commit that also stores the marks set so far.
abbrev pub is_filled : List String → Bool
is_filled [] = false
is_filled (x ∷ xs) = true

abbrev pub commits : Tables → (tenant_id destination : String) → List String → Bool
commits tables tenant_id destination fingerprints =
    is_filled (new_fingerprints plain tables tenant_id destination fingerprints)

-- One source incident whose alerts were removed: its mark joins the pending ones, and all of them are
-- stored with the new links, or later. Answers with the marks still pending.
abbrev pub move_to :
    (tenant_id destination : String) (now : ℕ) (merged_by : Option String)
    → (pending fingerprints : List String) → Tables
    → List String × Outcome (Unit {0})
move_to tenant_id destination now merged_by pending fingerprints tables =
    if commits tables tenant_id destination fingerprints
    then (
      [],
      add_alerts_to_incident plain tenant_id destination fingerprints
          (mark_merged tenant_id destination now merged_by pending tables),
    )
    else (pending, add_alerts_to_incident plain tenant_id destination fingerprints tables)

-- The loop over the source incidents; an exception loses the marks that are pending.
unfoldable pub merge_each :
    (tenant_id destination : String) (now : ℕ) (merged_by : Option String)
    → List (String × List String)
    → (pending : List String) → Tables
    → Outcome (Unit {0})
merge_each tenant_id destination now merged_by [] pending tables =
    (ok tt, mark_merged tenant_id destination now merged_by pending tables)
merge_each tenant_id destination now merged_by ((id, fingerprints) ∷ sources) pending tables =
    and_then (remove_alerts_to_incident_by_incident_id now tenant_id id fingerprints tables)
      (λ answer removed.
        let moved =
          move_to tenant_id destination now merged_by (pending ++ id ∷ []) fingerprints removed in
        and_then moved.1
          (λ done after. merge_each tenant_id destination now merged_by sources moved.0 after))

abbrev pub ids_of : List (String × List String) → List String
ids_of [] = []
ids_of ((id, fingerprints) ∷ sources) = id ∷ ids_of sources

abbrev pub merge_found :
    (now : ℕ) (tenant_id : String)
    → (sources : List (String × List String)) → (destination : String) → (merged_by : Option String)
    → Tables
    → Option Incident
    → Outcome (List String)
merge_found now tenant_id sources destination merged_by tables none =
    (err destination_incident_not_found, tables)
merge_found now tenant_id sources destination merged_by tables (some incident) =
    and_then (merge_each tenant_id destination now merged_by sources [] tables)
      (λ done after. (ok (ids_of sources), after))

-- `merge_incidents_to_id`, answering with the ids that were merged; none fails.
unfoldable pub merge_incidents_to_id :
    (now : ℕ) (tenant_id : String)
    → (source_ids : List String) → (destination : String) → (merged_by : Option String) → Tables
    → Outcome (List String)
merge_incidents_to_id now tenant_id source_ids destination merged_by tables =
    merge_found now tenant_id (source_incidents tables tenant_id source_ids tables.incidents)
      destination merged_by tables (find_incident tenant_id destination tables.incidents)

abbrev pub on_found :
    (tenant_id incident_id : String)
    → (missing : Failure) → (Incident → Incident)
    → Tables
    → Option Incident
    → Outcome (Unit {0})
on_found tenant_id incident_id missing change tables none = (err missing, tables)
on_found tenant_id incident_id missing change tables (some incident) =
    (ok tt, update tenant_id incident_id change tables)

-- `delete_incident_by_id`, which reads the id of an incident that may be None.
unfoldable pub delete_incident_by_id :
    (tenant_id incident_id : String) → Tables → Outcome (Unit {0})
delete_incident_by_id tenant_id incident_id tables =
    on_found tenant_id incident_id attribute_error
      (λ incident. record incident { status = "deleted" }) tables
      (find_incident tenant_id incident_id tables.incidents)

-- `update_incident_severity` with the check of `__postprocess_incident_change`
unfoldable pub update_severity :
    (tenant_id incident_id : String) → (order : ℕ) → Tables → Outcome (Unit {0})
update_severity tenant_id incident_id order tables =
    on_found tenant_id incident_id (http 404)
      (λ incident. record incident { severity = order; forced_severity = true }) tables
      (find_incident tenant_id incident_id tables.incidents)

-- `confirm_predicted_incident_by_id`: only a candidate becomes visible, and stays a candidate.
abbrev pub is_candidate_found : Option Incident → Bool
is_candidate_found none = false
is_candidate_found (some incident) = incident.is_candidate

unfoldable pub confirm_predicted_incident_by_id :
    (tenant_id incident_id : String) → Tables → Outcome Bool
confirm_predicted_incident_by_id tenant_id incident_id tables =
    if is_candidate_found (find_incident tenant_id incident_id tables.incidents)
    then (
      ok true,
      update tenant_id incident_id
          (λ incident. record incident { is_visible = true; is_candidate = true }) tables,
    )
    else (ok false, tables)

-- `change_status` of incidents_bl.py: the incident gets the status and the caller as its assignee. The
-- enrichment of its alerts is a coroutine that is not awaited, so it does not run.
unfoldable pub change_status :
    (now : ℕ) (tenant_id incident_id new_status email : String) → Tables → Outcome (Unit {0})
change_status now tenant_id incident_id new_status email tables =
    on_found tenant_id incident_id (http 404)
      (λ incident. record incident {
        status = new_status;
        end_time = if new_status == "resolved" then some now else incident.end_time;
        assignee = some email;
      })
      tables (find_incident tenant_id incident_id tables.incidents)

abbrev pub found : {A : Type 0} → Option Incident → Outcome A → Tables → Outcome A
found none outcome tables = (err (http 404), tables)
found (some incident) outcome tables = outcome

-- `add_alerts_to_incident` of incidents_bl.py, which first asks for the incident, as the next two do.
abbrev pub add_alerts_checked :
    (tenant_id : String)
    → (override_count by_ai : Bool) (incident_id : String) (fingerprints : List String) → Tables
    → Outcome (Unit {0})
add_alerts_checked tenant_id override_count by_ai id fingerprints tables =
    found (find_incident tenant_id id tables.incidents)
      (add_alerts_to_incident
        (record {
          is_created_by_ai = by_ai;
          override_count = override_count;
          exclude_unlinked_alerts = false;
        })
        tenant_id id fingerprints tables)
      tables

abbrev pub drop_answer : {A : Type 0} → Outcome A → Outcome (Unit {0})
drop_answer outcome = and_then outcome (λ answer after. (ok tt, after))

abbrev pub delete_alerts_from_incident :
    (now : ℕ) (tenant_id incident_id : String) (fingerprints : List String)
    → Tables
    → Outcome (Unit {0})
delete_alerts_from_incident now tenant_id id fingerprints tables =
    found (find_incident tenant_id id tables.incidents)
      (drop_answer (remove_alerts_to_incident_by_incident_id now tenant_id id fingerprints tables))
      tables

abbrev pub delete_incident : (tenant_id incident_id : String) → Tables → Outcome (Unit {0})
delete_incident tenant_id id tables =
    found (find_incident tenant_id id tables.incidents) (delete_incident_by_id tenant_id id tables)
      tables

-- A call of one of the operations on incidents.
pub data Op : Type 0 where
  add : (override_count by_ai : Bool) (incident_id : String) (fingerprints : List String) → Op
  delete_alerts : (incident_id : String) (fingerprints : List String) → Op
  delete : (incident_id : String) → Op
  set_severity : (incident_id : String) (order : ℕ) → Op
  set_status : (incident_id new_status email : String) → Op
  merge : (source_ids : List String) (destination : String) (merged_by : Option String) → Op
  confirm : (incident_id : String) → Op

unfoldable pub perform : (now : ℕ) (tenant_id : String) → Op → Tables → Outcome (Unit {0})
perform now tenant_id (add override_count by_ai id fingerprints) tables =
    add_alerts_checked tenant_id override_count by_ai id fingerprints tables
perform now tenant_id (delete_alerts id fingerprints) tables =
    delete_alerts_from_incident now tenant_id id fingerprints tables
perform now tenant_id (delete id) tables = delete_incident tenant_id id tables
perform now tenant_id (set_severity id order) tables = update_severity tenant_id id order tables
perform now tenant_id (set_status id new_status email) tables =
    change_status now tenant_id id new_status email tables
perform now tenant_id (merge source_ids destination merged_by) tables =
    drop_answer (merge_incidents_to_id now tenant_id source_ids destination merged_by tables)
perform now tenant_id (confirm id) tables =
    drop_answer (confirm_predicted_incident_by_id tenant_id id tables)

-- Operations one after the other, each at its time and for its tenant, up to the first that raises.
unfoldable pub perform_all : List (ℕ × String × Op) → Tables → Outcome (Unit {0})
perform_all [] tables = (ok tt, tables)
perform_all ((now, tenant_id, op) ∷ ops) tables =
    and_then (perform now tenant_id op tables) (λ done after. perform_all ops after)
