-- ===== src/Incidents/Invariant.antt =====
-- Every operation that returns leaves the counts of all incidents right.
use keep_api_gateway.Prelude.{
  ℕ, String, Bool, true, false, Option, none, some, List, [], ◌∷◌, ◌++◌, ◌≡◌, refl, if◌then◌else◌,
  ok, err,
}
use keep_api_gateway.Incidents.{Incident, Tables, Failure, Outcome, find_incident}
use keep_api_gateway.Incidents.Linking.{
  add_alerts_to_incident, remove_alerts_to_incident_by_incident_id,
}
use keep_api_gateway.Incidents.Changes.{
  update, merged, mark_merged, plain, commits, move_to, merge_each, ids_of, merge_found,
  source_incidents, merge_incidents_to_id, on_found, delete_incident_by_id, update_severity,
  is_candidate_found, confirm_predicted_incident_by_id, change_status, found, drop_answer, Op, add,
  delete_alerts, delete, set_severity, set_status, merge, confirm, perform, perform_all,
}
use keep_api_gateway.Incidents.Counted.{
  AllCounted, KeepsCounts, and_then-KeepsCounts, IsCounted-as_before,
}
use keep_api_gateway.Incidents.Counting.{
  add_alerts_to_incident-KeepsCounts, remove_alerts-KeepsCounts,
}

mark_merged-counted :
    (t d : String) (now : ℕ) (by : Option String) (ids : List String) (tables : Tables)
    → AllCounted tables
    → AllCounted (mark_merged t d now by ids tables)
unfolding mark_merged
mark_merged-counted t d now by [] tables h = h
mark_merged-counted t d now by (id ∷ ids) tables h =
    mark_merged-counted t d now by ids (update t id (merged d now by) tables) (
      IsCounted-as_before t id tables.links (merged d now by) (λ x. (refl, refl, refl))
        tables.incidents h)

chosen :
    (b : Bool) (x y : List String × Outcome (Unit {0}))
    → KeepsCounts x.1
    → KeepsCounts y.1
    → KeepsCounts (if b then x else y).1
chosen true x y h k = h
chosen false x y h k = k

move_to-KeepsCounts :
    (t d : String) (now : ℕ) (by : Option String) (pending fps : List String) (tables : Tables)
    → AllCounted tables
    → KeepsCounts (move_to t d now by pending fps tables).1
move_to-KeepsCounts t d now by pending fps tables h =
    chosen (commits tables t d fps)
      ([], add_alerts_to_incident plain t d fps (mark_merged t d now by pending tables))
      (pending, add_alerts_to_incident plain t d fps tables)
      (add_alerts_to_incident-KeepsCounts plain t d fps (mark_merged t d now by pending tables)
        (mark_merged-counted t d now by pending tables h))
      (add_alerts_to_incident-KeepsCounts plain t d fps tables h)

merge_each-KeepsCounts :
    (t d : String) (now : ℕ) (by : Option String) (sources : List (String × List String))
    (pending : List String) (tables : Tables)
    → AllCounted tables
    → KeepsCounts (merge_each t d now by sources pending tables)
unfolding merge_each
merge_each-KeepsCounts t d now by [] pending tables h =
    mark_merged-counted t d now by pending tables h
merge_each-KeepsCounts t d now by ((id, fps) ∷ sources) pending tables h =
    and_then-KeepsCounts (remove_alerts_to_incident_by_incident_id now t id fps tables) _
      (remove_alerts-KeepsCounts now t id fps tables h)
      (λ answer removed k.
        let moved = move_to t d now by (pending ++ id ∷ []) fps removed in
        and_then-KeepsCounts moved.1 (λ done after. merge_each t d now by sources moved.0 after)
          (move_to-KeepsCounts t d now by (pending ++ id ∷ []) fps removed k)
          (λ done after l. merge_each-KeepsCounts t d now by sources moved.0 after l))

merge_found-KeepsCounts :
    (now : ℕ) (t : String) (sources : List (String × List String)) (d : String) (by : Option String)
    (tables : Tables) (o : Option Incident)
    → AllCounted tables
    → KeepsCounts (merge_found now t sources d by tables o)
merge_found-KeepsCounts now t sources d by tables none h = tt
merge_found-KeepsCounts now t sources d by tables (some incident) h =
    and_then-KeepsCounts (merge_each t d now by sources [] tables)
      (λ done after. (ok (ids_of sources), after))
      (merge_each-KeepsCounts t d now by sources [] tables h) (λ done after k. k)

drop_answer-KeepsCounts :
    {A : Type 0} (outcome : Outcome A) → KeepsCounts outcome → KeepsCounts (drop_answer outcome)
drop_answer-KeepsCounts (ok answer, tables) h = h
drop_answer-KeepsCounts (err failure, tables) h = tt

on_found-KeepsCounts :
    (t i : String) (missing : Failure) (change : Incident → Incident) (tables : Tables)
    (o : Option Incident)
    → ((x : Incident)
        → ((change x).alerts_count ≡ x.alerts_count)
          × ((change x).tenant_id ≡ x.tenant_id)
          × ((change x).id ≡ x.id))
    → AllCounted tables
    → KeepsCounts (on_found t i missing change tables o)
on_found-KeepsCounts t i missing change tables none same h = tt
on_found-KeepsCounts t i missing change tables (some incident) same h =
    IsCounted-as_before t i tables.links change same tables.incidents h

found-KeepsCounts :
    (o : Option Incident) (outcome : Outcome (Unit {0})) (tables : Tables)
    → KeepsCounts outcome
    → KeepsCounts (found o outcome tables)
found-KeepsCounts none outcome tables h = tt
found-KeepsCounts (some incident) outcome tables h = h

confirm-KeepsCounts :
    (t i : String) (tables : Tables)
    → AllCounted tables
    → KeepsCounts (confirm_predicted_incident_by_id t i tables)
unfolding confirm_predicted_incident_by_id
confirm-KeepsCounts t i tables h = by_test (is_candidate_found (find_incident t i tables.incidents))
  where
    shown : Incident → Incident
    shown incident = record incident { is_visible = true; is_candidate = true }

    by_test :
        (b : Bool)
        → KeepsCounts {A = Bool}
            (if b then (ok true, update t i shown tables) else (ok false, tables))
    by_test true =
        IsCounted-as_before t i tables.links shown (λ x. (refl, refl, refl)) tables.incidents h
    by_test false = h

perform-KeepsCounts :
    (now : ℕ) (t : String) (op : Op) (tables : Tables)
    → AllCounted tables
    → KeepsCounts (perform now t op tables)
unfolding perform delete_incident_by_id update_severity change_status merge_incidents_to_id
perform-KeepsCounts now t (add override_count by_ai id fps) tables h =
    found-KeepsCounts (find_incident t id tables.incidents) _ tables
      (add_alerts_to_incident-KeepsCounts _ t id fps tables h)
perform-KeepsCounts now t (delete_alerts id fps) tables h =
    found-KeepsCounts (find_incident t id tables.incidents) _ tables (
      drop_answer-KeepsCounts (remove_alerts_to_incident_by_incident_id now t id fps tables)
        (remove_alerts-KeepsCounts now t id fps tables h))
perform-KeepsCounts now t (delete id) tables h =
    let o = find_incident t id tables.incidents in
    found-KeepsCounts o _ tables
      (on_found-KeepsCounts t id _ _ tables o (λ x. (refl, refl, refl)) h)
perform-KeepsCounts now t (set_severity id order) tables h =
    on_found-KeepsCounts t id _ _ tables (find_incident t id tables.incidents)
      (λ x. (refl, refl, refl)) h
perform-KeepsCounts now t (set_status id new_status email) tables h =
    on_found-KeepsCounts t id _ _ tables (find_incident t id tables.incidents)
      (λ x. (refl, refl, refl)) h
perform-KeepsCounts now t (merge source_ids d by) tables h =
    drop_answer-KeepsCounts (merge_incidents_to_id now t source_ids d by tables) (
      merge_found-KeepsCounts now t (source_incidents tables t source_ids tables.incidents) d by
        tables (find_incident t d tables.incidents) h)
perform-KeepsCounts now t (confirm id) tables h =
    drop_answer-KeepsCounts (confirm_predicted_incident_by_id t id tables)
      (confirm-KeepsCounts t id tables h)

-- Whatever operations are performed on incidents, for whatever tenants, as long as each of them returns:
-- if every incident shows the number of its active links before, every incident does so afterwards.
pub perform_all-KeepsCounts :
    (ops : List (ℕ × String × Op)) (tables : Tables)
    → AllCounted tables
    → KeepsCounts (perform_all ops tables)
unfolding perform_all
perform_all-KeepsCounts [] tables h = h
perform_all-KeepsCounts ((now, t, op) ∷ ops) tables h =
    and_then-KeepsCounts (perform now t op tables) (λ done after. perform_all ops after)
      (perform-KeepsCounts now t op tables h) (λ done after k. perform_all-KeepsCounts ops after k)
