-- ===== src/Incidents/Merging.antt =====
-- Which alerts are linked to an incident after others were merged into it.
use keep_api_gateway.Prelude.{
  ℕ, String, Bool, true, false, ◌&&◌, ◌||◌, Option, none, some, List, [], ◌∷◌, ◌++◌, ◌==◌, ◌≡◌, ◌∙◌,
  sym, refl, ap, eq_refl, contains, if◌then◌else◌, Result, ok, err,
}
use keep_api_gateway.Incidents.{
  Incident, Alert, Tables, Failure, Outcome, and_then, linked, find_incident,
}
use keep_api_gateway.Incidents.Summary.{AlertsData, get_alerts_data_for_incident}
use keep_api_gateway.Incidents.Linking.{
  with_links, unlink, count_removed, remaining, finish_removing, remove_found,
  add_alerts_to_incident, remove_alerts_to_incident_by_incident_id,
}
use keep_api_gateway.Incidents.Changes.{
  update, merged, mark_merged, plain, commits, move_to, merge_each, ids_of, merge_found,
  source_incidents, merge_incidents_to_id,
}
use keep_api_gateway.Incidents.Counted.{OthersKept}
use keep_api_gateway.Incidents.Counting.{unlink-OthersKept}
use keep_api_gateway.Incidents.Linked.{add_alerts_to_incident-linked, contains-append}

pub finish_removing-links :
    (t i : String) (removed : ℕ) (tables : Tables) (r : Result Failure AlertsData)
    (alerts : List Alert)
    → (finish_removing t i removed tables r alerts).1.links ≡ tables.links
finish_removing-links t i removed tables (err failure) alerts = refl
finish_removing-links t i removed tables (ok alerts_data) [] = refl
finish_removing-links t i removed tables (ok alerts_data) (a ∷ alerts) = refl

remove_found-OthersKept :
    (now : ℕ) (t i : String) (fps : List String) (tables : Tables) (o : Option Incident)
    → OthersKept t i tables.links (remove_found now t i fps tables o).1.links
remove_found-OthersKept now t i fps tables none u j h = refl
remove_found-OthersKept now t i fps tables (some incident) u j h =
    let after = with_links tables (unlink now t i fps tables.links) in
    ap (linked u j) (
      finish_removing-links t i (count_removed t i fps tables.links) after
        (get_alerts_data_for_incident after t fps) (remaining after t i))
    ∙ unlink-OthersKept now t i fps tables.links u j h

pub remove_alerts-OthersKept :
    (now : ℕ) (t i : String) (fps : List String) (tables : Tables)
    → OthersKept t i tables.links
        (remove_alerts_to_incident_by_incident_id now t i fps tables).1.links
unfolding remove_alerts_to_incident_by_incident_id
remove_alerts-OthersKept now t i fps tables =
    remove_found-OthersKept now t i fps tables (find_incident t i tables.incidents)

pub mark_merged-links :
    (t d : String) (now : ℕ) (by : Option String) (ids : List String) (tables : Tables)
    → (mark_merged t d now by ids tables).links ≡ tables.links
unfolding mark_merged
mark_merged-links t d now by [] tables = refl
mark_merged-links t d now by (id ∷ ids) tables =
    mark_merged-links t d now by ids (update t id (merged d now by) tables)

-- The alerts of the source incidents.
abbrev pub moved_fingerprints : List (String × List String) → List String
moved_fingerprints [] = []
moved_fingerprints ((id, fps) ∷ sources) = fps ++ moved_fingerprints sources

-- After the call, if it returned, the incident `d` has what it had and `more`.
abbrev Gains : (t d : String) (before : Tables) (more : List String) → Outcome (Unit {0}) → Type 0
Gains t d before more outcome =
    outcome.0 ≡ ok tt
    → (f : String)
    → contains (linked t d outcome.1.links) f
      ≡ (contains (linked t d before.links) f || contains more f)

add-Gains :
    (t d : String) (fps : List String) (before tables : Tables)
    → linked t d tables.links ≡ linked t d before.links
    → Gains t d before fps (add_alerts_to_incident plain t d fps tables)
add-Gains t d fps before tables same e f =
    add_alerts_to_incident-linked plain t d fps tables e f
    ∙ ap (λ x. contains x f || (contains fps f && true)) same
    ∙ and_true (contains (linked t d before.links) f) (contains fps f)
  where
    and_true : (a b : Bool) → (a || (b && true)) ≡ (a || b)
    and_true true b = refl
    and_true false true = refl
    and_true false false = refl

move_to-Gains :
    (t d : String) (now : ℕ) (by : Option String) (pending fps : List String)
    (before tables : Tables)
    → linked t d tables.links ≡ linked t d before.links
    → Gains t d before fps (move_to t d now by pending fps tables).1
move_to-Gains t d now by pending fps before tables same = by_test (commits tables t d fps)
  where
    marked : Tables
    marked = mark_merged t d now by pending tables

    choice : Bool → List String × Outcome (Unit {0})
    choice b =
        if b
        then ([], add_alerts_to_incident plain t d fps marked)
        else (pending, add_alerts_to_incident plain t d fps tables)

    by_test : (b : Bool) → Gains t d before fps (choice b).1
    by_test true =
        add-Gains t d fps before marked
          (ap (linked t d) (mark_merged-links t d now by pending tables) ∙ same)
    by_test false = add-Gains t d fps before tables same

pub after_and_then :
    {A B : Type 0} (outcome : Outcome A) (next : A → Tables → Outcome B) (b : B)
    → (and_then outcome next).0 ≡ ok b
    → (a : A) × (outcome.0 ≡ ok a) × (and_then outcome next ≡ next a outcome.1)
after_and_then (ok a, tables) next b e = (a, refl, refl)
after_and_then (err failure, tables) next b e = absurd (cc)

-- The destination is none of the sources.
abbrev pub AllOther : String → List (String × List String) → Type 0
AllOther d [] = Unit
AllOther d ((id, fps) ∷ sources) = ((d == id) ≡ false) × AllOther d sources

merge_each-Gains :
    (t d : String) (now : ℕ) (by : Option String) (sources : List (String × List String))
    (pending : List String) (tables : Tables)
    → AllOther d sources
    → Gains t d tables (moved_fingerprints sources) (merge_each t d now by sources pending tables)
unfolding merge_each
merge_each-Gains t d now by [] pending tables h e f =
    ap (λ x. contains (linked t d x) f) (mark_merged-links t d now by pending tables)
    ∙ or_false (contains (linked t d tables.links) f)
  where
    or_false : (a : Bool) → a ≡ (a || false)
    or_false true = refl
    or_false false = refl
merge_each-Gains t d now by ((id, fps) ∷ sources) pending tables h e f =
    let removal = remove_alerts_to_incident_by_incident_id now t id fps tables in
    let (answer, returned, removed) = after_and_then removal _ tt e in
    let moved = move_to t d now by (pending ++ id ∷ []) fps removal.1 in
    let (done, gained, continued) =
      after_and_then moved.1 (λ done after. merge_each t d now by sources moved.0 after) tt
        (ap (λ x. x.0) (sym removed) ∙ e) in
    let kept = remove_alerts-OthersKept now t id fps tables t d (rw (eq_refl t) h.0) in
    ap (λ o. contains (linked t d o.1.links) f) (removed ∙ continued)
    ∙ merge_each-Gains t d now by sources moved.0 moved.1.1 h.1
        (ap (λ x. x.0) (sym continued) ∙ ap (λ x. x.0) (sym removed) ∙ e) f
    ∙ ap (λ x. x || contains (moved_fingerprints sources) f)
        (move_to-Gains t d now by (pending ++ id ∷ []) fps tables removal.1 kept gained f)
    ∙ or_assoc (contains (linked t d tables.links) f) (contains fps f) _
    ∙ ap (λ x. contains (linked t d tables.links) f || x)
        (sym (contains-append fps (moved_fingerprints sources) f))
  where
    or_assoc : (a b c : Bool) → ((a || b) || c) ≡ (a || (b || c))
    or_assoc true b c = refl
    or_assoc false b c = refl

-- When a merge into an incident that is no source itself returns, it answers with the ids of the source
-- incidents that there are, and the alerts linked to the destination are those that were and those of
-- the source incidents.
pub merge_incidents_to_id-linked :
    (now : ℕ) (t : String) (source_ids : List String) (d : String) (by : Option String)
    (tables : Tables) (ids : List String)
    → AllOther d (source_incidents tables t source_ids tables.incidents)
    → (merge_incidents_to_id now t source_ids d by tables).0 ≡ ok ids
    → (ids ≡ ids_of (source_incidents tables t source_ids tables.incidents))
      × ((f : String)
          → contains (linked t d (merge_incidents_to_id now t source_ids d by tables).1.links) f ≡ (
              contains (linked t d tables.links) f
              || contains
                  (moved_fingerprints (source_incidents tables t source_ids tables.incidents))
                  f))
unfolding merge_incidents_to_id
merge_incidents_to_id-linked now t source_ids d by tables ids other e =
    by_found (find_incident t d tables.incidents) e
  where
    sources : List (String × List String)
    sources = source_incidents tables t source_ids tables.incidents

    list_of : Result Failure (List String) → List String
    list_of (ok xs) = xs
    list_of (err failure) = []

    by_found :
        (o : Option Incident)
        → (merge_found now t sources d by tables o).0 ≡ ok ids
        → (ids ≡ ids_of sources)
          × ((f : String)
              → contains (linked t d (merge_found now t sources d by tables o).1.links) f
                ≡ (contains (linked t d tables.links) f || contains (moved_fingerprints sources) f))
    by_found none e = absurd (cc)
    by_found (some incident) e =
        let (done, returned, continued) =
          after_and_then (merge_each t d now by sources [] tables)
            (λ done after. (ok (ids_of sources), after)) ids e in
        (
          sym (ap (λ x. list_of x.0) (sym continued) ∙ ap list_of e),
          λ f.
              ap (λ x. contains (linked t d x.1.links) f) continued
              ∙ merge_each-Gains t d now by sources [] tables other returned f,
        )
