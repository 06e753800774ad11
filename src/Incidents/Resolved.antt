-- ===== src/Incidents/Resolved.antt =====
-- Incidents that are resolved once all of their alerts are: enriching the alerts with a status and the
-- check that follows.
use keep_api_gateway.Prelude.{
  String, nat_eq, all, Bool, true, false, not, ◌&&◌, Option, none, some, List, [], ◌∷◌, ◌++◌, ◌==◌,
  ◌≡◌, ◌∙◌, refl, ap, contains, if◌then◌else◌, ok,
}
use keep_api_gateway.Alerts.{LastAlert}
use keep_api_gateway.Alerts.Enrich.{Call, Store, find_row, batch_rows, batch_audits, batch_enrich}
use keep_api_gateway.Incidents.{
  Incident, Alert, Tables, is_none, linked, has_id, find_incident, has_last_alert, find_alert,
}
use keep_api_gateway.Incidents.Statuses.{
  linked_rows, statuses, is_all_alerts_in_status, should_resolve, resolve_if, resolve_each,
  check_incident_resolution,
}
use keep_api_gateway.Incidents.Batch.{
  status_only, normalize_enrichments-status, seen, seen-batch_rows,
}
use keep_api_gateway.Incidents.Joined.{
  is_of_tenant, linked-covered, linked-is_link_of, is_empty, statuses-linked, any-re_all,
  statuses-batch_rows,
}

has_id-resolve_if :
    (t i : String) (b : Bool) (incident : Incident)
    → has_id t i (resolve_if b incident) ≡ has_id t i incident
has_id-resolve_if t i true incident = refl
has_id-resolve_if t i false incident = refl

abbrev map_incident : (Incident → Incident) → Option Incident → Option Incident
map_incident change none = none
map_incident change (some incident) = some (change incident)

find_incident-resolve_each :
    (t i : String) (test : Incident → Bool) (incidents : List Incident)
    → find_incident t i (resolve_each test incidents)
      ≡ map_incident (λ x. resolve_if (test x) x) (find_incident t i incidents)
unfolding find_incident resolve_each
find_incident-resolve_each t i test [] = refl
find_incident-resolve_each t i test (first ∷ incidents) =
    rw (has_id-resolve_if t i (test first) first)
      (by_id (has_id t i first) (find_incident-resolve_each t i test incidents))
  where
    by_id :
        (b : Bool)
        → find_incident t i (resolve_each test incidents)
          ≡ map_incident (λ x. resolve_if (test x) x) (find_incident t i incidents)
        → (if b
            then some (resolve_if (test first) first)
            else find_incident t i (resolve_each test incidents))
          ≡ map_incident
              (λ x. resolve_if (test x) x)
              (if b then some first else find_incident t i incidents)
    by_id true rest = refl
    by_id false rest = rest

is_all_alerts_in_status-batch_rows :
    (call : Call) (w status : String) (incident : Incident) (tables : Tables)
    → all (is_of_tenant call.tenant_id incident.id) tables.links ≡ true
    → is_empty (statuses tables.alerts (linked_rows incident.id tables.last_alerts tables.links))
      ≡ false
    → is_all_alerts_in_status [] (some incident) status (record tables {
      last_alerts =
          batch_rows call
            (status_only w)
            (linked call.tenant_id incident.id tables.links)
            tables.last_alerts;
    })
      ≡ (not (nat_eq incident.alerts_count 0) && w == status)
unfolding is_all_alerts_in_status
is_all_alerts_in_status-batch_rows call w status incident tables same shown =
    let fs = linked call.tenant_id incident.id tables.links in
    let before = statuses tables.alerts (linked_rows incident.id tables.last_alerts tables.links) in
    rw
      (statuses-batch_rows call w incident.id fs tables.alerts tables.last_alerts tables.links
        (linked-covered call.tenant_id incident.id fs tables.links same (λ f e. e)))
      (rw (any-re_all w status before)
        (rw shown (negated (nat_eq incident.alerts_count 0) (w == status))))
  where
    negated : (a b : Bool) → (not a && not (not b)) ≡ (not a && b)
    negated a true = refl
    negated a false = refl

is_none-seen : (o : Option LastAlert) → is_none o ≡ is_none (seen o)
is_none-seen none = refl
is_none-seen (some row) = refl

has_last_alert-batch_rows :
    (call : Call) (w f : String) (fs : List String) (tables : Tables) (row : LastAlert)
    → find_row call.tenant_id f tables.last_alerts ≡ some row
    → contains fs f ≡ true
    → has_last_alert
        (record tables { last_alerts = batch_rows call (status_only w) fs tables.last_alerts })
        call.tenant_id
        f
      ≡ true
has_last_alert-batch_rows call w f fs tables row h asked =
    ap not (
      is_none-seen
        (find_row call.tenant_id f (batch_rows call (status_only w) fs tables.last_alerts)))
    ∙ ap (λ x. not (is_none x)) (seen-batch_rows call w f fs tables.last_alerts)
    ∙ rw asked (rw h refl)

resolution_after :
    (call : Call) (resolve_on : String → String) (w f : String) (tables : Tables)
    (incident : Incident) (row : LastAlert) (alert : Alert)
    → find_incident call.tenant_id incident.id tables.incidents ≡ some incident
    → (resolve_on incident.id == "all_resolved") ≡ true
    → all (is_of_tenant call.tenant_id incident.id) tables.links ≡ true
    → contains (linked call.tenant_id incident.id tables.links) f ≡ true
    → find_row call.tenant_id f tables.last_alerts ≡ some row
    → find_alert row.alert_id tables.alerts ≡ some alert
    → find_incident call.tenant_id incident.id
        (check_incident_resolution resolve_on call.tenant_id f (record tables {
          last_alerts =
              batch_rows call
                (status_only w)
                (linked call.tenant_id incident.id tables.links)
                tables.last_alerts;
        })).incidents
      ≡ some (resolve_if (not (nat_eq incident.alerts_count 0) && w == "resolved") incident)
unfolding check_incident_resolution
resolution_after call resolve_on w f tables incident row alert there on_all same asked h k =
    let t = call.tenant_id in
    let fs = linked t incident.id tables.links in
    let after : Tables = record tables {
      last_alerts = batch_rows call (status_only w) fs tables.last_alerts;
    } in
    let shown =
      statuses-linked t incident.id f tables.last_alerts tables.alerts row alert h k tables.links
        asked in
    rw (has_last_alert-batch_rows call w f fs tables row h asked) (
      find_incident-resolve_each t incident.id (should_resolve resolve_on t f after)
        tables.incidents
      ∙ rw there (
          rw (linked-is_link_of t f incident tables.links asked) (
            rw on_all (
              rw (is_all_alerts_in_status-batch_rows call w "resolved" incident tables same shown)
                refl))))

abbrev pub with_rows : Tables → Store → Tables
with_rows tables store = record tables { last_alerts = store.last_alerts }

-- An incident is to be resolved with all of its alerts, its links are of its tenant, and one of the
-- alerts linked to it is there. Enriching those that are linked by a status is accepted, and the check
-- that follows for that one resolves the incident exactly when the status is "resolved" and the
-- incident shows alerts; otherwise it leaves the incident as it is.
pub check_incident_resolution-batch_enrich :
    (call : Call) (resolve_on : String → String) (w f : String) (tables : Tables) (s : Store)
    (incident : Incident) (row : LastAlert) (alert : Alert)
    → s.last_alerts ≡ tables.last_alerts
    → find_incident call.tenant_id incident.id tables.incidents ≡ some incident
    → (resolve_on incident.id == "all_resolved") ≡ true
    → all (is_of_tenant call.tenant_id incident.id) tables.links ≡ true
    → contains (linked call.tenant_id incident.id tables.links) f ≡ true
    → find_row call.tenant_id f tables.last_alerts ≡ some row
    → find_alert row.alert_id tables.alerts ≡ some alert
    → (after : Store) × (batch_enrich call
          (status_only w)
          (linked call.tenant_id incident.id tables.links)
          s
        ≡ ok after)
      × (find_incident call.tenant_id incident.id
            (check_incident_resolution resolve_on call.tenant_id f
              (with_rows tables after)).incidents
          ≡ some (resolve_if (not (nat_eq incident.alerts_count 0) && w == "resolved") incident))
unfolding batch_enrich
check_incident_resolution-batch_enrich call resolve_on w f tables s incident row alert same_rows
      there on_all same asked h k =
    let fs = linked call.tenant_id incident.id tables.links in
    let after : Store = record {
      last_alerts = batch_rows call (status_only w) fs s.last_alerts;
      audits = s.audits ++ batch_audits call fs;
    } in
    (
      after,
      rw (normalize_enrichments-status call.strict w) refl,
      rw same_rows (
          resolution_after call resolve_on w f tables incident row alert there on_all same asked h
            k),
    )
