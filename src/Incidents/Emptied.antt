-- ===== src/Incidents/Emptied.antt =====
-- The alerts that the source incidents of a merge lose.
use keep_api_gateway.Prelude.{
  ℕ, String, Bool, true, false, not, ◌&&◌, Option, none, some, List, [], ◌∷◌, ◌++◌, ◌==◌, ◌≡◌, ◌∙◌,
  sym, refl, ap, arith, eq_refl, contains, if◌then◌else◌, ok,
}
use keep_api_gateway.Incidents.{Incident, Tables, Outcome, linked, find_incident}
use keep_api_gateway.Incidents.Summary.{last_occurrences}
use keep_api_gateway.Incidents.Linking.{
  add_alerts_to_incident, remove_alerts_to_incident_by_incident_id,
}
use keep_api_gateway.Incidents.Changes.{
  mark_merged, plain, commits, move_to, merge_each, fingerprints_of, ids_of, merge_found,
  source_incidents, merge_incidents_to_id,
}
use keep_api_gateway.Incidents.Merging.{mark_merged-links, after_and_then}
use keep_api_gateway.Incidents.Kept.{
  is_found, has_incident, LeavesOthers, add_alerts_to_incident-LeavesOthers,
  has_incident-remove_alerts, has_incident-mark_merged,
}
use keep_api_gateway.Incidents.Removed.{is_moved, removed_links, and_true, neither}

abbrev AllFound : (t : String) → Tables → List (String × List String) → Type 0
AllFound t tables [] = Unit
AllFound t tables ((id, fps) ∷ sources) =
    (has_incident t id tables ≡ true) × AllFound t tables sources

AllFound-later :
    (t : String) (before after : Tables)
    → ((i : String) → has_incident t i after ≡ has_incident t i before)
    → (sources : List (String × List String)) → AllFound t before sources
    → AllFound t after sources
AllFound-later t before after same [] h = tt
AllFound-later t before after same ((id, fps) ∷ sources) h =
    (same id ∙ h.0, AllFound-later t before after same sources h.1)

move_to-LeavesOthers :
    (t d : String) (now : ℕ) (by : Option String) (pending fps : List String) (tables : Tables)
    → LeavesOthers t d tables (move_to t d now by pending fps tables).1.1
move_to-LeavesOthers t d now by pending fps tables = by_test (commits tables t d fps)
  where
    marked : Tables
    marked = mark_merged t d now by pending tables

    choice : Bool → List String × Outcome (Unit {0})
    choice b =
        if b
        then ([], add_alerts_to_incident plain t d fps marked)
        else (pending, add_alerts_to_incident plain t d fps tables)

    by_test : (b : Bool) → LeavesOthers t d tables (choice b).1.1
    by_test false = add_alerts_to_incident-LeavesOthers plain t d fps tables
    by_test true =
        let (found, others) = add_alerts_to_incident-LeavesOthers plain t d fps marked in
        (
          λ i. found i ∙ has_incident-mark_merged t i t d now by pending tables,
          λ u j h. others u j h ∙ ap (linked u j) (mark_merged-links t d now by pending tables),
        )

merge_each-links :
    (t d j f : String) (now : ℕ) (by : Option String) (sources : List (String × List String))
    (pending : List String) (tables : Tables)
    → (j == d) ≡ false
    → AllFound t tables sources
    → (merge_each t d now by sources pending tables).0 ≡ ok tt
    → contains (linked t j (merge_each t d now by sources pending tables).1.links) f
      ≡ (contains (linked t j tables.links) f && not (is_moved j f sources))
unfolding merge_each
merge_each-links t d j f now by [] pending tables other h e =
    ap (λ x. contains (linked t j x) f) (mark_merged-links t d now by pending tables)
    ∙ and_true (contains (linked t j tables.links) f)
merge_each-links t d j f now by ((id, fps) ∷ sources) pending tables other h e =
    let removal = remove_alerts_to_incident_by_incident_id now t id fps tables in
    let (answer, returned, removed) = after_and_then removal _ tt e in
    let moved = move_to t d now by (pending ++ id ∷ []) fps removal.1 in
    let (done, gained, continued) =
      after_and_then moved.1 (λ done after. merge_each t d now by sources moved.0 after) tt
        (ap (λ x. x.0) (sym removed) ∙ e) in
    let (found, others) = move_to-LeavesOthers t d now by (pending ++ id ∷ []) fps removal.1 in
    ap (λ o. contains (linked t j o.1.links) f) (removed ∙ continued)
    ∙ merge_each-links t d j f now by sources moved.0 moved.1.1 other
        (AllFound-later t tables moved.1.1
          (λ i. found i ∙ has_incident-remove_alerts t i t id now fps tables) sources h.1)
        (ap (λ x. x.0) (sym continued) ∙ ap (λ x. x.0) (sym removed) ∙ e)
    ∙ ap (λ x. contains x f && not (is_moved j f sources)) (others t j (rw (eq_refl t) other))
    ∙ ap (λ x. x && not (is_moved j f sources)) (removed_links now t id j f fps tables h.0)
    ∙ neither (contains (linked t j tables.links) f) ((j == id) && contains fps f)
        (is_moved j f sources)

found_first :
    (t : String) (x : Incident) (xs : List Incident)
    → (x.tenant_id == t) ≡ true
    → is_found (find_incident t x.id (x ∷ xs)) ≡ true
unfolding find_incident
found_first t x xs e = rw e (rw (eq_refl x.id) refl)

found_after :
    (t i : String) (x : Incident) (xs : List Incident)
    → is_found (find_incident t i xs) ≡ true
    → is_found (find_incident t i (x ∷ xs)) ≡ true
unfolding find_incident
found_after t i x xs h = ground (arith, h)

source_incidents-found :
    (t : String) (source_ids : List String) (tables : Tables) (incidents : List Incident)
    → ((i : String)
        → is_found (find_incident t i incidents) ≡ true
        → has_incident t i tables ≡ true)
    → AllFound t tables (source_incidents tables t source_ids incidents)
unfolding source_incidents
source_incidents-found t source_ids tables [] sub = tt
source_incidents-found t source_ids tables (x ∷ xs) sub =
    by_test (x.tenant_id == t) refl (contains source_ids x.id)
      (source_incidents-found t source_ids tables xs (λ i h. sub i (found_after t i x xs h)))
  where
    by_test :
        (b : Bool)
        → (x.tenant_id == t) ≡ b
        → (asked : Bool) → AllFound t tables (source_incidents tables t source_ids xs)
        → AllFound t tables (
            if b && asked
            then (x.id, fingerprints_of (last_occurrences tables t (linked t x.id tables.links)))
              ∷ source_incidents tables t source_ids xs
            else source_incidents tables t source_ids xs)
    by_test false e asked rest = rest
    by_test true e false rest = rest
    by_test true e true rest = (sub x.id (found_first t x xs e), rest)

-- When a merge returns, each incident of the tenant but the destination has lost the alerts that
-- were moved from it, and no others.
pub merge_incidents_to_id-moved :
    (now : ℕ) (t : String) (source_ids : List String) (d : String) (by : Option String)
    (tables : Tables) (ids : List String) (j f : String)
    → (j == d) ≡ false
    → (merge_incidents_to_id now t source_ids d by tables).0 ≡ ok ids
    → contains (linked t j (merge_incidents_to_id now t source_ids d by tables).1.links) f ≡ (
        contains (linked t j tables.links) f
        && not (is_moved j f (source_incidents tables t source_ids tables.incidents)))
unfolding merge_incidents_to_id
merge_incidents_to_id-moved now t source_ids d by tables ids j f other e =
    by_found (find_incident t d tables.incidents) e
  where
    sources : List (String × List String)
    sources = source_incidents tables t source_ids tables.incidents

    by_found :
        (o : Option Incident)
        → (merge_found now t sources d by tables o).0 ≡ ok ids
        → contains (linked t j (merge_found now t sources d by tables o).1.links) f
          ≡ (contains (linked t j tables.links) f && not (is_moved j f sources))
    by_found none e = absurd (cc)
    by_found (some incident) e =
        let (done, returned, continued) =
          after_and_then (merge_each t d now by sources [] tables)
            (λ done after. (ok (ids_of sources), after)) ids e in
        ap (λ x. contains (linked t j x.1.links) f) continued
        ∙ merge_each-links t d j f now by sources [] tables other
            (source_incidents-found t source_ids tables tables.incidents (λ i h. h)) returned
