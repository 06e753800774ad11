-- ===== src/Incidents/Counting.antt =====
-- Linking and unlinking alerts leaves the counts right.
use keep_api_gateway.Prelude.{
  ℕ, String, Bool, true, false, ◌&&◌, Option, none, some, List, [], ◌∷◌, ◌++◌, ◌==◌, ◌≡◌, ◌∙◌, refl,
  ap, arith, eq_iff, All, all, if◌then◌else◌, Result, ok, err,
}
use keep_api_gateway.Incidents.{
  Incident, Alert, LastAlertToIncident, key_error, integrity_error, Tables, Failure, linked,
  update_incident, find_incident, has_last_alert,
}
use keep_api_gateway.Incidents.Linking.{
  Adding, new_links, with_links, sum_up_added, finish_adding, link_new, add_alerts_to_incident,
  unlink, sum_up_removed, finish_removing, remove_found, remove_alerts_to_incident_by_incident_id,
  new_fingerprints, remaining, count_removed,
}
use keep_api_gateway.Incidents.Summary.{AlertsData, get_alerts_data_for_incident}
use keep_api_gateway.Incidents.Counted.{
  IsCounted, AllCounted, KeepsCounts, OthersKept, IsCounted-anew,
}

pub linked-append :
    (u j : String) (xs ys : List LastAlertToIncident)
    → linked u j (xs ++ ys) ≡ linked u j xs ++ linked u j ys
unfolding linked
linked-append u j [] ys = refl
linked-append u j (x ∷ xs) ys = ground (arith, linked-append u j xs ys)

pub append-nil : (xs : List String) → xs ++ [] ≡ xs
append-nil [] = refl
append-nil (x ∷ xs) = ap (λ ys. x ∷ ys) (append-nil xs)

linked-new_links_other :
    (by_ai : Bool) (t i u j : String) (new : List String)
    → (u == t && j == i) ≡ false
    → linked u j (new_links by_ai t i new) ≡ []
unfolding linked new_links
linked-new_links_other by_ai t i u j [] h = refl
linked-new_links_other by_ai t i u j (f ∷ new) h = ground (
  arith,
  eq_iff t u,
  eq_iff u t,
  eq_iff i j,
  eq_iff j i,
  linked-new_links_other by_ai t i u j new h,
)

pub new_links-OthersKept :
    (by_ai : Bool) (t i : String) (new : List String) (links : List LastAlertToIncident)
    → OthersKept t i links (links ++ new_links by_ai t i new)
new_links-OthersKept by_ai t i new links u j h =
    linked-append u j links (new_links by_ai t i new)
    ∙ rw (linked-new_links_other by_ai t i u j new h) (append-nil (linked u j links))

pub unlink-OthersKept :
    (now : ℕ) (t i : String) (fps : List String) (links : List LastAlertToIncident)
    → OthersKept t i links (unlink now t i fps links)
unfolding linked unlink
unlink-OthersKept now t i fps [] u j h = refl
unlink-OthersKept now t i fps (link ∷ links) u j h = ground (
  arith,
  eq_iff link.tenant_id t,
  eq_iff link.tenant_id u,
  eq_iff u t,
  eq_iff link.incident_id i,
  eq_iff link.incident_id j,
  eq_iff j i,
  unlink-OthersKept now t i fps links u j,
)

finish_adding-KeepsCounts :
    (adding : Adding) (t i : String) (before : List LastAlertToIncident) (tables : Tables)
    (r : Result Failure AlertsData)
    → OthersKept t i before tables.links
    → All (IsCounted before) tables.incidents
    → KeepsCounts (finish_adding adding t i tables r)
finish_adding-KeepsCounts adding t i before tables (err failure) others h = tt
finish_adding-KeepsCounts adding t i before tables (ok alerts_data) others h =
    by_flag adding.override_count
  where
    by_flag :
        (b : Bool)
        → KeepsCounts {A = Unit {0}} (
            if b then (err key_error, tables) else (
              ok tt,
              record tables {
                incidents =
                    update_incident t i (sum_up_added tables t i alerts_data) tables.incidents;
              },
            ))
    by_flag true = tt
    by_flag false =
        IsCounted-anew t i before tables.links (sum_up_added tables t i alerts_data) others
          (λ x. refl) (λ x. refl) (λ x. refl) tables.incidents h

link_new-KeepsCounts :
    (adding : Adding) (t i : String) (new : List String) (tables : Tables)
    → AllCounted tables
    → KeepsCounts (link_new adding t i new tables)
unfolding link_new
link_new-KeepsCounts adding t i [] tables h = h
link_new-KeepsCounts adding t i (f ∷ fs) tables h = by_test (all (has_last_alert tables t) (f ∷ fs))
  where
    linking : Tables
    linking = with_links tables (tables.links ++ new_links adding.is_created_by_ai t i (f ∷ fs))

    by_test :
        (b : Bool)
        → KeepsCounts (
            if b
            then finish_adding adding t i linking (get_alerts_data_for_incident linking t (f ∷ fs))
            else (err integrity_error, tables))
    by_test false = tt
    by_test true =
        finish_adding-KeepsCounts adding t i tables.links linking
          (get_alerts_data_for_incident linking t (f ∷ fs))
          (new_links-OthersKept adding.is_created_by_ai t i (f ∷ fs) tables.links) h

pub add_alerts_to_incident-KeepsCounts :
    (adding : Adding) (t i : String) (fps : List String) (tables : Tables)
    → AllCounted tables
    → KeepsCounts (add_alerts_to_incident adding t i fps tables)
unfolding add_alerts_to_incident
add_alerts_to_incident-KeepsCounts adding t i fps tables h =
    link_new-KeepsCounts adding t i (new_fingerprints adding tables t i fps) tables h

finish_removing-KeepsCounts :
    (t i : String) (removed : ℕ) (before : List LastAlertToIncident) (tables : Tables)
    (r : Result Failure AlertsData) (alerts : List Alert)
    → OthersKept t i before tables.links
    → All (IsCounted before) tables.incidents
    → KeepsCounts (finish_removing t i removed tables r alerts)
finish_removing-KeepsCounts t i removed before tables (err failure) alerts others h = tt
finish_removing-KeepsCounts t i removed before tables (ok alerts_data) (a ∷ alerts) others h = tt
finish_removing-KeepsCounts t i removed before tables (ok alerts_data) [] others h =
    IsCounted-anew t i before tables.links (sum_up_removed tables t i alerts_data) others
      (λ x. refl) (λ x. refl) (λ x. refl) tables.incidents h

remove_found-KeepsCounts :
    (now : ℕ) (t i : String) (fps : List String) (tables : Tables) (o : Option Incident)
    → AllCounted tables
    → KeepsCounts (remove_found now t i fps tables o)
remove_found-KeepsCounts now t i fps tables none h = h
remove_found-KeepsCounts now t i fps tables (some incident) h =
    let after = with_links tables (unlink now t i fps tables.links) in
    finish_removing-KeepsCounts t i (count_removed t i fps tables.links) tables.links after
      (get_alerts_data_for_incident after t fps) (remaining after t i)
      (unlink-OthersKept now t i fps tables.links) h

pub remove_alerts-KeepsCounts :
    (now : ℕ) (t i : String) (fps : List String) (tables : Tables)
    → AllCounted tables
    → KeepsCounts (remove_alerts_to_incident_by_incident_id now t i fps tables)
unfolding remove_alerts_to_incident_by_incident_id
remove_alerts-KeepsCounts now t i fps tables h =
    remove_found-KeepsCounts now t i fps tables (find_incident t i tables.incidents) h
