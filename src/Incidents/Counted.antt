-- ===== src/Incidents/Counted.antt =====
-- The number of alerts that an incident shows.
use keep_api_gateway.Prelude.{
  String, Bool, true, false, ◌&&◌, List, [], ◌∷◌, ◌==◌, ◌≡◌, ◌∙◌, sym, refl, ap, eq_iff, length,
  All, if◌then◌else◌, ok, err,
}
use keep_api_gateway.Incidents.{
  Incident, LastAlertToIncident, Tables, Outcome, and_then, linked, has_id, update_incident,
}

abbrev pub IsCounted : List LastAlertToIncident → Incident → Type 0
IsCounted links incident =
    incident.alerts_count ≡ length (linked incident.tenant_id incident.id links)

-- The count of every incident is that of its active links.
abbrev pub AllCounted : Tables → Type 0
AllCounted tables = All (IsCounted tables.links) tables.incidents

-- A call that returns leaves the counts right.
abbrev pub KeepsCounts : {A : Type 0} → Outcome A → Type 0
KeepsCounts (ok answer, tables) = AllCounted tables
KeepsCounts (err failure, tables) = Unit

pub and_then-KeepsCounts :
    {A B : Type 0} (outcome : Outcome A) (next : A → Tables → Outcome B)
    → KeepsCounts outcome
    → ((answer : A) (tables : Tables) → AllCounted tables → KeepsCounts (next answer tables))
    → KeepsCounts (and_then outcome next)
and_then-KeepsCounts (ok answer, tables) next h k = k answer tables h
and_then-KeepsCounts (err failure, tables) next h k = tt

-- The links of the other incidents are as before.
abbrev pub OthersKept : (t i : String) (before after : List LastAlertToIncident) → Type 0
OthersKept t i before after =
    (u j : String) → (u == t && j == i) ≡ false → linked u j after ≡ linked u j before

pub both : (a b : Bool) → (a && b) ≡ true → (a ≡ true) × (b ≡ true)
both true true e = (refl, refl)
both true false e = absurd (cc)
both false b e = absurd (cc)

-- An update that counts the links anew.
pub IsCounted-anew :
    (t i : String) (before after : List LastAlertToIncident) (change : Incident → Incident)
    → OthersKept t i before after
    → ((x : Incident) → (change x).alerts_count ≡ length (linked t i after))
    → ((x : Incident) → (change x).tenant_id ≡ x.tenant_id)
    → ((x : Incident) → (change x).id ≡ x.id)
    → (incidents : List Incident) → All (IsCounted before) incidents
    → All (IsCounted after) (update_incident t i change incidents)
unfolding update_incident
IsCounted-anew t i before after change others counts tenant id [] h = tt
IsCounted-anew t i before after change others counts tenant id (x ∷ xs) h =
    by_test (has_id t i x) refl
      (IsCounted-anew t i before after change others counts tenant id xs h.1)
  where
    by_test :
        (b : Bool)
        → has_id t i x ≡ b
        → All (IsCounted after) (update_incident t i change xs)
        → All (IsCounted after) (
            if b
            then change x ∷ update_incident t i change xs
            else x ∷ update_incident t i change xs)
    by_test true e rest =
        let (same_tenant, same_id) = both (x.tenant_id == t) (x.id == i) e in
        (
          counts x
              ∙ ap (λ y. length (linked y i after))
                  (sym (tenant x ∙ (eq_iff x.tenant_id t).0 same_tenant))
              ∙ ap (λ y. length (linked (change x).tenant_id y after))
                  (sym (id x ∙ (eq_iff x.id i).0 same_id)),
          rest,
        )
    by_test false e rest = (h.0 ∙ ap length (sym (others x.tenant_id x.id e)), rest)

-- An update of other columns.
pub IsCounted-as_before :
    (t i : String) (links : List LastAlertToIncident) (change : Incident → Incident)
    → ((x : Incident)
        → ((change x).alerts_count ≡ x.alerts_count)
          × ((change x).tenant_id ≡ x.tenant_id)
          × ((change x).id ≡ x.id))
    → (incidents : List Incident) → All (IsCounted links) incidents
    → All (IsCounted links) (update_incident t i change incidents)
unfolding update_incident
IsCounted-as_before t i links change same [] h = tt
IsCounted-as_before t i links change same (x ∷ xs) h =
    by_test (has_id t i x) (IsCounted-as_before t i links change same xs h.1)
  where
    changed : IsCounted links (change x)
    changed =
        (same x).0
        ∙ h.0
        ∙ ap (λ y. length (linked y x.id links)) (sym (same x).1)
        ∙ ap (λ y. length (linked (change x).tenant_id y links)) (sym (same x).2)

    by_test :
        (b : Bool)
        → All (IsCounted links) (update_incident t i change xs)
        → All (IsCounted links) (
            if b
            then change x ∷ update_incident t i change xs
            else x ∷ update_incident t i change xs)
    by_test true rest = (changed, rest)
    by_test false rest = (h.0, rest)
