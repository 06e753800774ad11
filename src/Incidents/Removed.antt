-- ===== src/Incidents/Removed.antt =====
-- What one removal of a merge leaves linked.
use keep_api_gateway.Prelude.{
  ℕ, String, Bool, true, false, not, ◌&&◌, ◌||◌, Option, none, some, List, [], ◌∷◌, ◌==◌, ◌≡◌, ◌∙◌,
  sym, subst, refl, ap, arith, eq_iff, eq_refl, contains, if◌then◌else◌,
}
use keep_api_gateway.Incidents.{
  Incident, LastAlertToIncident, Tables, is_active, linked, find_incident,
}
use keep_api_gateway.Incidents.Summary.{get_alerts_data_for_incident}
use keep_api_gateway.Incidents.Linking.{
  with_links, unlink, count_removed, remaining, remove_found,
  remove_alerts_to_incident_by_incident_id,
}
use keep_api_gateway.Incidents.Merging.{finish_removing-links, remove_alerts-OthersKept}
use keep_api_gateway.Incidents.Kept.{is_found, has_incident}

contains-linked-unlink :
    (now : ℕ) (t i : String) (fps : List String) (f : String) (links : List LastAlertToIncident)
    → contains (linked t i (unlink now t i fps links)) f
      ≡ (contains (linked t i links) f && not (contains fps f))
unfolding linked unlink
contains-linked-unlink now t i fps f [] = refl
contains-linked-unlink now t i fps f (link ∷ links) =
    by_tests (is_active t i link) (contains fps link.fingerprint) refl
      (λ e. ap (contains fps) ((eq_iff link.fingerprint f).0 e))
      (contains-linked-unlink now t i fps f links)
  where
    by_tests :
        (active asked : Bool)
        → is_active t i link ≡ active
        → ((link.fingerprint == f) ≡ true → asked ≡ contains fps f)
        → contains (linked t i (unlink now t i fps links)) f
          ≡ (contains (linked t i links) f && not (contains fps f))
        → contains
            (linked t i (
              if active && asked
              then record link { deleted_at = some now } ∷ unlink now t i fps links
              else link ∷ unlink now t i fps links))
            f
          ≡ (contains (if active then link.fingerprint ∷ linked t i links else linked t i links) f
              && not (contains fps f))
    by_tests true true e name rest = ground (arith, name, rest)
    by_tests true false e name rest = rw e (ground (arith, name, rest))
    by_tests false asked e name rest = rw e rest

-- One of the sources is the incident, and the fingerprint among its alerts.
abbrev pub is_moved : (i f : String) → List (String × List String) → Bool
is_moved i f [] = false
is_moved i f ((id, fps) ∷ sources) = ((i == id) && contains fps f) || is_moved i f sources

remove_found-links :
    (now : ℕ) (t i : String) (fps : List String) (tables : Tables) (o : Option Incident)
    → is_found o ≡ true
    → (remove_found now t i fps tables o).1.links ≡ unlink now t i fps tables.links
remove_found-links now t i fps tables none h = absurd (cc)
remove_found-links now t i fps tables (some incident) h =
    let after = with_links tables (unlink now t i fps tables.links) in
    finish_removing-links t i (count_removed t i fps tables.links) after
      (get_alerts_data_for_incident after t fps) (remaining after t i)

pub and_true : (a : Bool) → a ≡ (a && true)
and_true true = refl
and_true false = refl

pub neither : (a b c : Bool) → ((a && not b) && not c) ≡ (a && not (b || c))
neither true true c = refl
neither true false c = refl
neither false b c = refl

-- What the removal leaves linked to any incident.
pub removed_links :
    (now : ℕ) (t id j f : String) (fps : List String) (tables : Tables)
    → has_incident t id tables ≡ true
    → contains (linked t j (remove_alerts_to_incident_by_incident_id now t id fps tables).1.links) f
      ≡ (contains (linked t j tables.links) f && not ((j == id) && contains fps f))
unfolding remove_alerts_to_incident_by_incident_id
removed_links now t id j f fps tables h = by_name (j == id) refl
  where
    by_name :
        (b : Bool)
        → (j == id) ≡ b
        → contains
            (linked t j (remove_alerts_to_incident_by_incident_id now t id fps tables).1.links)
            f
          ≡ (contains (linked t j tables.links) f && not (b && contains fps f))
    by_name true e =
        subst
          (λ x.
            contains
              (linked t x (remove_alerts_to_incident_by_incident_id now t id fps tables).1.links) f
            ≡ (contains (linked t x tables.links) f && not (contains fps f)))
          (sym ((eq_iff j id).0 e))
          (ap (λ x. contains (linked t id x) f)
              (remove_found-links now t id fps tables (find_incident t id tables.incidents) h)
            ∙ contains-linked-unlink now t id fps f tables.links)
    by_name false e =
        ap (λ x. contains x f) (remove_alerts-OthersKept now t id fps tables t j (rw (eq_refl t) e))
        ∙ and_true (contains (linked t j tables.links) f)
