-- ===== src/Incidents/Stale.antt =====
-- Unlinking some of the alerts of an incident, but not all.
use keep_api_gateway.Prelude.{
  ℕ, suc, ◌+◌, String, Bool, true, false, ◌&&◌, Option, none, some, List, [], ◌∷◌, ◌==◌, ◌≡◌, ◌∙◌,
  sym, refl, ap, arith, eq_iff, length, All, contains, if◌then◌else◌, ok, err,
}
use keep_api_gateway.Incidents.{
  Incident, Alert, LastAlertToIncident, Tables, name_error, Outcome, is_active, linked, has_id,
  find_incident,
}
use keep_api_gateway.Incidents.Summary.{AlertsData, get_alerts_data_for_incident}
use keep_api_gateway.Incidents.Linking.{
  with_links, unlink, count_removed, remaining, remove_alerts_to_incident_by_incident_id,
}
use keep_api_gateway.Incidents.Counted.{IsCounted, AllCounted, both}

pub length-linked-unlink :
    (now : ℕ) (t i : String) (fps : List String) (links : List LastAlertToIncident)
    → length (linked t i (unlink now t i fps links)) + count_removed t i fps links
      ≡ length (linked t i links)
unfolding linked unlink count_removed
length-linked-unlink now t i fps [] = omega arith
length-linked-unlink now t i fps (link ∷ links) =
    by_tests (is_active t i link) (contains fps link.fingerprint) refl
      (length-linked-unlink now t i fps links)
  where
    by_tests :
        (active asked : Bool)
        → is_active t i link ≡ active
        → length (linked t i (unlink now t i fps links)) + count_removed t i fps links
          ≡ length (linked t i links)
        → length (
              linked t i (
                if active && asked
                then record link { deleted_at = some now } ∷ unlink now t i fps links
                else link ∷ unlink now t i fps links))
            + (if active && asked
                then suc (count_removed t i fps links)
                else count_removed t i fps links)
          ≡ length (if active then link.fingerprint ∷ linked t i links else linked t i links)
    by_tests true true e rest = ground (arith, rest)
    by_tests true false e rest = rw e (omega (arith, rest))
    by_tests false asked e rest = rw e rest

found-IsCounted :
    (t i : String) (links : List LastAlertToIncident) (incidents : List Incident)
    (incident : Incident)
    → All (IsCounted links) incidents
    → find_incident t i incidents ≡ some incident
    → incident.alerts_count ≡ length (linked t i links)
unfolding find_incident
found-IsCounted t i links [] incident h e = absurd (cc)
found-IsCounted t i links (x ∷ xs) incident h e =
    by_test (has_id t i x) refl (found-IsCounted t i links xs incident h.1) e
  where
    or_first : Option Incident → Incident
    or_first none = x
    or_first (some y) = y

    by_test :
        (b : Bool)
        → has_id t i x ≡ b
        → (find_incident t i xs ≡ some incident → incident.alerts_count ≡ length (linked t i links))
        → (if b then some x else find_incident t i xs) ≡ some incident
        → incident.alerts_count ≡ length (linked t i links)
    by_test true k rest e =
        let (same_tenant, same_id) = both (x.tenant_id == t) (x.id == i) k in
        ap (λ y. (or_first y).alerts_count) (sym e)
        ∙ h.0
        ∙ ap (λ y. length (linked y x.id links)) ((eq_iff x.tenant_id t).0 same_tenant)
        ∙ ap (λ y. length (linked t y links)) ((eq_iff x.id i).0 same_id)
    by_test false k rest e = rest e

-- When the counts are right, alerts whose severities are known are unlinked from an incident and
-- another alert stays linked, the call raises a NameError after the links were deleted and before
-- the incident is updated: the incident is found as it was, and its count is too high by the number
-- of the deleted links.
pub remove_alerts-name_error :
    (now : ℕ) (t i : String) (fps : List String) (tables : Tables) (incident : Incident)
    (alerts_data : AlertsData) (alert : Alert) (others : List Alert)
    → AllCounted tables
    → find_incident t i tables.incidents ≡ some incident
    → get_alerts_data_for_incident (with_links tables (unlink now t i fps tables.links)) t fps
      ≡ ok alerts_data
    → remaining (with_links tables (unlink now t i fps tables.links)) t i ≡ alert ∷ others
    → (outcome : Outcome (Option ℕ)) × (remove_alerts_to_incident_by_incident_id now t i fps tables
        ≡ outcome)
      × (outcome.0 ≡ err name_error)
      × (find_incident t i outcome.1.incidents ≡ some incident)
      × (incident.alerts_count
          ≡ length (linked t i outcome.1.links) + count_removed t i fps tables.links)
unfolding remove_alerts_to_incident_by_incident_id
remove_alerts-name_error now t i fps tables incident alerts_data alert others h found known left =
    let after = with_links tables (unlink now t i fps tables.links) in
    (
      (err name_error, after),
      rw found (rw known (rw left refl)),
      refl,
      found,
      found-IsCounted t i tables.links tables.incidents incident h found
          ∙ sym (length-linked-unlink now t i fps tables.links),
    )
