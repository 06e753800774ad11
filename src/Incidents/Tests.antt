-- ===== src/Incidents/Tests.antt =====
-- Tables of incidents, and the theorems at them.
use keep_api_gateway.Prelude.{
  ℕ, ◌+◌, String, true, false, not, ◌&&◌, ◌||◌, Option, none, some, List, [], ◌∷◌, ◌≡◌, refl,
  length, contains, ok, err,
}
use keep_api_gateway.Prelude.Dict
use keep_api_gateway.Prelude.Dict.{Dict}
use keep_api_gateway.Prelude.Json.{Json}
use keep_api_gateway.Prelude.Json.Json.{str}
use keep_api_gateway.Alerts.{LastAlert}
use keep_api_gateway.Alerts.Enrich.{is_blank, Call, Store, batch_enrich}
use keep_api_gateway.Alerts.Written.{is_dict}
use keep_api_gateway.Incidents.Enrichment.{new_enrichment_data, drop_nulls, keep_note, put_all}
use keep_api_gateway.Incidents.Notes.{get-new_enrichment_data}
use keep_api_gateway.Alerts.Enrich.{find_row}
use keep_api_gateway.Incidents.{
  Incident, Alert, Tables, name_error, Outcome, linked, unlinked, find_incident, update_incident,
  find_alert, filter, distinct,
}
use keep_api_gateway.Incidents.Summary.{
  pointed, rows_of, sources_of, services_of, max_severity, get_alerts_data_for_incident, first_time,
  last_time, occurrences,
}
use keep_api_gateway.Incidents.Linking.{
  new_fingerprints, new_links, link_new, add_alerts_to_incident, unlink, count_removed,
  remove_alerts_to_incident_by_incident_id,
}
use keep_api_gateway.Incidents.Changes.{
  source_incidents, mark_merged, plain, merge_each, ids_of, merge_incidents_to_id,
  delete_incident_by_id, update_severity, confirm_predicted_incident_by_id, change_status, Op, add,
  delete_alerts, set_severity, merge, perform, perform_all,
}
use keep_api_gateway.Incidents.Counted.{KeepsCounts}
use keep_api_gateway.Incidents.Invariant.{perform_all-KeepsCounts}
use keep_api_gateway.Incidents.Linked.{is_left_out, add_alerts_to_incident-linked}
use keep_api_gateway.Incidents.Statuses.{
  linked_rows, statuses, is_all_alerts_in_status, is_all_alerts_resolved, check_incident_resolution,
}
use keep_api_gateway.Incidents.Batch.{status_only}
use keep_api_gateway.Incidents.Resolved.{with_rows, check_incident_resolution-batch_enrich}
use keep_api_gateway.Incidents.Stale.{remove_alerts-name_error}
use keep_api_gateway.Incidents.Removed.{is_moved}
use keep_api_gateway.Incidents.Emptied.{merge_incidents_to_id-moved}
use keep_api_gateway.Incidents.Merging.{moved_fingerprints, merge_incidents_to_id-linked}

program : Unit {0}
unfolding linked unlinked find_incident update_incident find_alert filter distinct pointed rows_of
    sources_of services_of max_severity get_alerts_data_for_incident first_time last_time
    occurrences new_fingerprints new_links link_new add_alerts_to_incident unlink count_removed
    remove_alerts_to_incident_by_incident_id source_incidents mark_merged merge_each
    merge_incidents_to_id delete_incident_by_id update_severity confirm_predicted_incident_by_id
    change_status perform perform_all find_row
program = tt

abbrev alert_of : String → String → String → ℕ → Alert
alert_of id fingerprint severity timestamp = record {
  id = id;
  tenant_id = "acme";
  fingerprint = fingerprint;
  service = some "shop";
  provider_type = "grafana";
  severity = some severity;
  status = some "firing";
  timestamp = timestamp;
  received_at = none;
}

abbrev row_of : String → String → LastAlert
row_of fingerprint alert_id = record {
  tenant_id = "acme";
  fingerprint = fingerprint;
  alert_id = alert_id;
  timestamp = 7;
  first_timestamp = 7;
  alert_hash = none;
  columns = [];
}

abbrev incident_of : String → Incident
incident_of id = record {
  id = id;
  tenant_id = "acme";
  status = "firing";
  severity = 1;
  forced_severity = false;
  alerts_count = 0;
  affected_services = [];
  sources = [];
  start_time = none;
  last_seen_time = none;
  end_time = none;
  assignee = none;
  is_candidate = false;
  is_visible = true;
  merged_into_incident_id = none;
  merged_at = none;
  merged_by = none;
}

abbrev tables : Tables
tables = record {
  incidents = incident_of "i1" ∷ incident_of "i2" ∷ [];
  alerts = alert_of "a1" "disk" "high" 5 ∷ alert_of "a2" "cpu" "critical" 7 ∷ [];
  last_alerts = row_of "disk" "a1" ∷ row_of "cpu" "a2" ∷ [];
  links = [];
}

abbrev both_alerts : List String
both_alerts = "disk" ∷ "cpu" ∷ []

-- The tables once both alerts are linked to the first incident.
abbrev adding_both : Outcome (Unit {0})
adding_both = add_alerts_to_incident plain "acme" "i1" both_alerts tables

adding_runs : adding_both.0 ≡ ok tt
adding_runs = unfold program in refl

abbrev summed_up : Incident
summed_up = record (incident_of "i1") {
  severity = 5;
  alerts_count = 2;
  affected_services = "shop" ∷ [];
  sources = "grafana" ∷ [];
  start_time = some 5;
  last_seen_time = some 7;
}

severity_runs : find_incident "acme" "i1" adding_both.1.incidents ≡ some summed_up
severity_runs = unfold program in refl

abbrev ops : List (ℕ × String × Op)
ops =
    (10, "acme", add false false "i1" both_alerts)
    ∷ (11, "acme", set_severity "i2" 4)
    ∷ (12, "acme", merge ("i1" ∷ []) "i2" none)
    ∷ (13, "acme", delete_alerts "i2" both_alerts)
    ∷ []

ops_run : (perform_all ops tables).0 ≡ ok tt
ops_run = unfold program in refl

perform_all-KeepsCounts_example : KeepsCounts (perform_all ops tables)
perform_all-KeepsCounts_example =
    perform_all-KeepsCounts ops tables (unfold program in (refl, (refl, tt)))

add_alerts_to_incident-linked_example : contains (linked "acme" "i1" adding_both.1.links) "cpu" ≡ (
    contains (linked "acme" "i1" []) "cpu"
    || (contains both_alerts "cpu" && not (is_left_out plain tables "acme" "i1" "cpu")))
add_alerts_to_incident-linked_example =
    add_alerts_to_incident-linked plain "acme" "i1" both_alerts tables (unfold program in refl)
      "cpu"

remove_alerts-name_error_example :
    (outcome : Outcome (Option ℕ)) × (remove_alerts_to_incident_by_incident_id 20 "acme" "i1"
        ("disk" ∷ [])
        adding_both.1
      ≡ outcome)
    × (outcome.0 ≡ err name_error)
    × (find_incident "acme" "i1" outcome.1.incidents ≡ some summed_up)
    × (2
        ≡ length (linked "acme" "i1" outcome.1.links)
          + count_removed "acme" "i1" ("disk" ∷ []) adding_both.1.links)
remove_alerts-name_error_example =
    remove_alerts-name_error 20 "acme" "i1" ("disk" ∷ []) adding_both.1 summed_up
      (record { sources = "grafana" ∷ []; services = "shop" ∷ []; max_severity = 4 })
      (alert_of "a2" "cpu" "critical" 7) [] (unfold program in (refl, (refl, tt)))
      (unfold program in refl) (unfold program in refl) (unfold program in refl)

abbrev merging : Outcome (List String)
merging = merge_incidents_to_id 20 "acme" ("i1" ∷ []) "i2" none adding_both.1

merge_incidents_to_id-linked_example :
    ("i1" ∷ [] ≡ ids_of (source_incidents adding_both.1 "acme" ("i1" ∷ []) adding_both.1.incidents))
    × ((f : String)
        → contains (linked "acme" "i2" merging.1.links) f ≡ (
            contains (linked "acme" "i2" adding_both.1.links) f
            || contains
                (moved_fingerprints
                  (source_incidents adding_both.1 "acme" ("i1" ∷ []) adding_both.1.incidents))
                f))
merge_incidents_to_id-linked_example =
    merge_incidents_to_id-linked 20 "acme" ("i1" ∷ []) "i2" none adding_both.1 ("i1" ∷ [])
      (unfold program in (refl, tt)) (unfold program in refl)

notes : Unit {0}
unfolding is_dict Dict.get
notes = tt

-- A note that is white space, and one that is None.
abbrev noted : Dict Json
noted = ("note", str "looking") ∷ ("team", str "ops") ∷ []

blank_note_runs :
    new_enrichment_data false noted (("note", str " ") ∷ ("team", Json.null) ∷ [])
    ≡ ("note", str "looking") ∷ []
unfolding new_enrichment_data drop_nulls keep_note put_all is_blank Dict.get Dict.put Dict.remove
blank_note_runs = refl

get-new_enrichment_data_example :
    Dict.get (new_enrichment_data false noted (("note", Json.null) ∷ [])) "note" ≡ none
unfolding Dict.get
get-new_enrichment_data_example =
    get-new_enrichment_data "note" noted (("note", Json.null) ∷ []) (unfold notes in refl)

merge_incidents_to_id-moved_example : contains (linked "acme" "i1" merging.1.links) "cpu" ≡ (
    contains (linked "acme" "i1" adding_both.1.links) "cpu"
    && not (
        is_moved "i1" "cpu"
          (source_incidents adding_both.1 "acme" ("i1" ∷ []) adding_both.1.incidents)))
merge_incidents_to_id-moved_example =
    merge_incidents_to_id-moved 20 "acme" ("i1" ∷ []) "i2" none adding_both.1 ("i1" ∷ []) "i1" "cpu"
      refl (unfold program in refl)

abbrev resolving : Call
resolving = record {
  tenant_id = "acme";
  action_type = "alert was resolved";
  action_callee = "joe";
  action_description = "resolved by joe";
  force = false;
  audit_enabled = true;
  strict = true;
}

abbrev on_all : String → String
on_all id = "all_resolved"

not_yet_runs : is_all_alerts_resolved [] (some summed_up) adding_both.1 ≡ false
unfolding is_all_alerts_in_status linked_rows statuses Dict.get
not_yet_runs = unfold program in refl

check_incident_resolution-batch_enrich_example :
    (after : Store) × (batch_enrich resolving
        (status_only "resolved")
        (linked "acme" "i1" adding_both.1.links)
        (record { last_alerts = tables.last_alerts; audits = [] })
      ≡ ok after)
    × (find_incident "acme" "i1"
          (check_incident_resolution on_all "acme" "cpu" (with_rows adding_both.1 after)).incidents
        ≡ some (record summed_up { status = "resolved" }))
check_incident_resolution-batch_enrich_example =
    check_incident_resolution-batch_enrich resolving on_all "resolved" "cpu" adding_both.1
      (record { last_alerts = tables.last_alerts; audits = [] }) summed_up (row_of "cpu" "a2")
      (alert_of "a2" "cpu" "critical" 7) (unfold program in refl) (unfold program in refl) refl
      (unfold program in refl) (unfold program in refl) (unfold program in refl)
      (unfold program in refl)
