-- ===== src/Incidents/Kept.antt =====
-- The operations on links lose no incident, and leave the links of other incidents.
use keep_api_gateway.Prelude.{
  ℕ, String, Bool, true, false, Option, none, some, List, [], ◌∷◌, ◌++◌, ◌≡◌, ◌∙◌, refl, ap, arith,
  all, if◌then◌else◌, Result, ok, err,
}
use keep_api_gateway.Incidents.{
  Incident, Alert, Tables, Failure, key_error, integrity_error, Outcome, linked, has_id,
  find_incident, update_incident, has_last_alert,
}
use keep_api_gateway.Incidents.Summary.{AlertsData, get_alerts_data_for_incident}
use keep_api_gateway.Incidents.Linking.{
  Adding, new_links, with_links, sum_up_added, finish_adding, link_new, new_fingerprints,
  add_alerts_to_incident, unlink, count_removed, remaining, sum_up_removed, finish_removing,
  remove_found, remove_alerts_to_incident_by_incident_id,
}
use keep_api_gateway.Incidents.Changes.{update, merged, mark_merged}
use keep_api_gateway.Incidents.Counted.{OthersKept}
use keep_api_gateway.Incidents.Counting.{new_links-OthersKept}
use keep_api_gateway.Incidents.Linked.{finish_adding-links}

abbrev pub is_found : Option Incident → Bool
is_found none = false
is_found (some incident) = true

abbrev pub has_incident : (t i : String) → Tables → Bool
has_incident t i tables = is_found (find_incident t i tables.incidents)

find_incident-update_incident :
    (t i u j : String) (change : Incident → Incident)
    → ((x : Incident) → has_id t i (change x) ≡ has_id t i x)
    → (incidents : List Incident)
    → is_found (find_incident t i (update_incident u j change incidents))
      ≡ is_found (find_incident t i incidents)
unfolding find_incident update_incident
find_incident-update_incident t i u j change same [] = refl
find_incident-update_incident t i u j change same (x ∷ xs) =
    ground (arith, same x, find_incident-update_incident t i u j change same xs)

has_incident-finish_adding :
    (t i u j : String) (adding : Adding) (tables : Tables) (r : Result Failure AlertsData)
    → has_incident t i (finish_adding adding u j tables r).1 ≡ has_incident t i tables
has_incident-finish_adding t i u j adding tables (err failure) = refl
has_incident-finish_adding t i u j adding tables (ok alerts_data) = by_flag adding.override_count
  where
    outcome : Bool → Outcome (Unit {0})
    outcome b = if b then (err key_error, tables) else (
      ok tt,
      record tables {
        incidents = update_incident u j (sum_up_added tables u j alerts_data) tables.incidents;
      },
    )

    by_flag : (b : Bool) → has_incident t i (outcome b).1 ≡ has_incident t i tables
    by_flag true = refl
    by_flag false =
        find_incident-update_incident t i u j (sum_up_added tables u j alerts_data) (λ x. refl)
          tables.incidents

-- What adding leaves: the incidents, and the links of the others.
abbrev pub LeavesOthers : (t d : String) → Tables → Tables → Type 0
LeavesOthers t d before after =
    ((i : String) → has_incident t i after ≡ has_incident t i before)
    × OthersKept t d before.links after.links

link_new-LeavesOthers :
    (adding : Adding) (t d : String) (new : List String) (tables : Tables)
    → LeavesOthers t d tables (link_new adding t d new tables).1
unfolding link_new
link_new-LeavesOthers adding t d [] tables = (λ i. refl, λ u j h. refl)
link_new-LeavesOthers adding t d (f ∷ fs) tables = by_test (all (has_last_alert tables t) (f ∷ fs))
  where
    linking : Tables
    linking = with_links tables (tables.links ++ new_links adding.is_created_by_ai t d (f ∷ fs))

    outcome : Bool → Outcome (Unit {0})
    outcome b =
        if b
        then finish_adding adding t d linking (get_alerts_data_for_incident linking t (f ∷ fs))
        else (err integrity_error, tables)

    by_test : (b : Bool) → LeavesOthers t d tables (outcome b).1
    by_test false = (λ i. refl, λ u j h. refl)
    by_test true =
        let r = get_alerts_data_for_incident linking t (f ∷ fs) in
        (
          λ i. has_incident-finish_adding t i t d adding linking r,
          λ u j h.
              ap (linked u j) (finish_adding-links adding t d linking r)
              ∙ new_links-OthersKept adding.is_created_by_ai t d (f ∷ fs) tables.links u j h,
        )

pub add_alerts_to_incident-LeavesOthers :
    (adding : Adding) (t d : String) (fps : List String) (tables : Tables)
    → LeavesOthers t d tables (add_alerts_to_incident adding t d fps tables).1
unfolding add_alerts_to_incident
add_alerts_to_incident-LeavesOthers adding t d fps tables =
    link_new-LeavesOthers adding t d (new_fingerprints adding tables t d fps) tables

has_incident-finish_removing :
    (t i u j : String) (removed : ℕ) (tables : Tables) (r : Result Failure AlertsData)
    (alerts : List Alert)
    → has_incident t i (finish_removing u j removed tables r alerts).1 ≡ has_incident t i tables
has_incident-finish_removing t i u j removed tables (err failure) alerts = refl
has_incident-finish_removing t i u j removed tables (ok alerts_data) (a ∷ alerts) = refl
has_incident-finish_removing t i u j removed tables (ok alerts_data) [] =
    find_incident-update_incident t i u j (sum_up_removed tables u j alerts_data) (λ x. refl)
      tables.incidents

has_incident-remove_found :
    (t i u j : String) (now : ℕ) (fps : List String) (tables : Tables) (o : Option Incident)
    → has_incident t i (remove_found now u j fps tables o).1 ≡ has_incident t i tables
has_incident-remove_found t i u j now fps tables none = refl
has_incident-remove_found t i u j now fps tables (some incident) =
    let after = with_links tables (unlink now u j fps tables.links) in
    has_incident-finish_removing t i u j (count_removed u j fps tables.links) after
      (get_alerts_data_for_incident after u fps) (remaining after u j)

pub has_incident-remove_alerts :
    (t i u j : String) (now : ℕ) (fps : List String) (tables : Tables)
    → has_incident t i (remove_alerts_to_incident_by_incident_id now u j fps tables).1
      ≡ has_incident t i tables
unfolding remove_alerts_to_incident_by_incident_id
has_incident-remove_alerts t i u j now fps tables =
    has_incident-remove_found t i u j now fps tables (find_incident u j tables.incidents)

pub has_incident-mark_merged :
    (t i u d : String) (now : ℕ) (by : Option String) (ids : List String) (tables : Tables)
    → has_incident t i (mark_merged u d now by ids tables) ≡ has_incident t i tables
unfolding mark_merged
has_incident-mark_merged t i u d now by [] tables = refl
has_incident-mark_merged t i u d now by (id ∷ ids) tables =
    has_incident-mark_merged t i u d now by ids (update u id (merged d now by) tables)
    ∙ find_incident-update_incident t i u id (merged d now by) (λ x. refl) tables.incidents
