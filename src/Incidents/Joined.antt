-- ===== src/Incidents/Joined.antt =====
-- The statuses of the alerts linked to an incident, before and after a batch of enrichments.
use keep_api_gateway.Prelude.{
  String, any, all, Bool, true, false, not, ◌&&◌, ◌||◌, Option, none, some, List, [], ◌∷◌, ◌==◌,
  ◌≡◌, ◌∙◌, sym, refl, ap, arith, eq_iff, eq_refl, contains, if◌then◌else◌,
}
use keep_api_gateway.Prelude.Json.{Json}
use keep_api_gateway.Prelude.Json.Json.{str}
use keep_api_gateway.Alerts.{LastAlert}
use keep_api_gateway.Alerts.Enrich.{Call, find_row, batch_rows}
use keep_api_gateway.Incidents.{Incident, Alert, LastAlertToIncident, is_none, linked, find_alert}
use keep_api_gateway.Incidents.Statuses.{
  with_row, linked_rows, with_status, statuses, is_out_of, is_link_of,
}
use keep_api_gateway.Incidents.Batch.{status_only, seen, re_status, seen-batch_rows}

abbrev pub re_all : String → List (Json × Option String) → List (Json × Option String)
re_all w [] = []
re_all w ((old, of_alert) ∷ xs) = (str w, of_alert) ∷ re_all w xs

-- What a row that was found adds to the statuses depends on what is seen of it.
abbrev add_seen :
    List Alert → Option (String × Json) → List (Json × Option String) → List (Json × Option String)
add_seen alerts none rest = rest
add_seen alerts (some (id, status)) rest = with_status status (find_alert id alerts) rest

statuses-with_row :
    (alerts : List Alert) (o : Option LastAlert) (rows : List LastAlert)
    → statuses alerts (with_row o rows) ≡ add_seen alerts (seen o) (statuses alerts rows)
unfolding statuses
statuses-with_row alerts none rows = refl
statuses-with_row alerts (some row) rows = refl

add_seen-re_status :
    (w : String) (alerts : List Alert) (o : Option (String × Json))
    (xs : List (Json × Option String))
    → add_seen alerts (re_status w o) (re_all w xs) ≡ re_all w (add_seen alerts o xs)
add_seen-re_status w alerts none xs = refl
add_seen-re_status w alerts (some (id, old)) xs = by_alert (find_alert id alerts)
  where
    by_alert :
        (o : Option Alert) → with_status (str w) o (re_all w xs) ≡ re_all w (with_status old o xs)
    by_alert none = refl
    by_alert (some alert) = refl

-- A link that is active and leads to an incident is of the tenant and one of the fingerprints.
abbrev is_covered : (t i : String) → List String → LastAlertToIncident → Bool
is_covered t i fs link =
    not (is_none link.deleted_at && link.incident_id == i)
    || (link.tenant_id == t && contains fs link.fingerprint)

pub statuses-batch_rows :
    (call : Call) (w i : String) (fs : List String) (alerts : List Alert) (rows : List LastAlert)
    (links : List LastAlertToIncident)
    → all (is_covered call.tenant_id i fs) links ≡ true
    → statuses alerts (linked_rows i (batch_rows call (status_only w) fs rows) links)
      ≡ re_all w (statuses alerts (linked_rows i rows links))
unfolding linked_rows statuses
statuses-batch_rows call w i fs alerts rows [] h = refl
statuses-batch_rows call w i fs alerts rows (link ∷ links) h =
    by_active (is_none link.deleted_at && link.incident_id == i) refl
      (statuses-batch_rows call w i fs alerts rows links (ground (arith, h)))
  where
    after : List LastAlert
    after = batch_rows call (status_only w) fs rows

    found : List LastAlert → Option LastAlert
    found = find_row link.tenant_id link.fingerprint

    re_seen :
        (is_none link.deleted_at && link.incident_id == i) ≡ true
        → seen (found after) ≡ re_status w (seen (found rows))
    re_seen e =
        let same : link.tenant_id ≡ call.tenant_id =
          (eq_iff link.tenant_id call.tenant_id).0 (ground (arith, h, e)) in
        let asked : contains fs link.fingerprint ≡ true = ground (arith, h, e) in
        rw same (seen-batch_rows call w link.fingerprint fs rows ∙ rw asked refl)

    by_active :
        (b : Bool)
        → (is_none link.deleted_at && link.incident_id == i) ≡ b
        → statuses alerts (linked_rows i after links)
          ≡ re_all w (statuses alerts (linked_rows i rows links))
        → statuses alerts (
            if b
            then with_row (found after) (linked_rows i after links)
            else linked_rows i after links)
          ≡ re_all w (
              statuses alerts (
                if b
                then with_row (found rows) (linked_rows i rows links)
                else linked_rows i rows links))
    by_active false e rest = rest
    by_active true e rest =
        statuses-with_row alerts (found after) (linked_rows i after links)
        ∙ rw (re_seen e) (
            rw rest (
              add_seen-re_status w alerts (seen (found rows))
                (statuses alerts (linked_rows i rows links))))
        ∙ ap (re_all w) (sym (statuses-with_row alerts (found rows) (linked_rows i rows links)))

-- Every link that leads to an incident is of its tenant.
abbrev pub is_of_tenant : (t i : String) → LastAlertToIncident → Bool
is_of_tenant t i link = not (link.incident_id == i) || link.tenant_id == t

pub linked-covered :
    (t i : String) (fs : List String) (links : List LastAlertToIncident)
    → all (is_of_tenant t i) links ≡ true
    → ((f : String) → contains (linked t i links) f ≡ true → contains fs f ≡ true)
    → all (is_covered t i fs) links ≡ true
unfolding linked
linked-covered t i fs [] h known = refl
linked-covered t i fs (link ∷ links) h known =
    let here = known link.fingerprint in
    let rest =
      linked-covered t i fs links (ground (arith, h)) (λ f e. known f (ground (arith, e))) in
    ground (arith, here, rest, h, eq_refl link.fingerprint)

pub linked-is_link_of :
    (t f : String) (incident : Incident) (links : List LastAlertToIncident)
    → contains (linked t incident.id links) f ≡ true
    → any (is_link_of t f incident) links ≡ true
unfolding linked
linked-is_link_of t f incident [] h = h
linked-is_link_of t f incident (link ∷ links) h =
    ground (arith, h, linked-is_link_of t f incident links)

abbrev pub is_empty : List (Json × Option String) → Bool
is_empty [] = true
is_empty (x ∷ xs) = false

is_empty-add_seen :
    (alerts : List Alert) (o : Option (String × Json)) (xs : List (Json × Option String))
    → is_empty xs ≡ false
    → is_empty (add_seen alerts o xs) ≡ false
is_empty-add_seen alerts none xs h = h
is_empty-add_seen alerts (some (id, status)) xs h = by_alert (find_alert id alerts)
  where
    by_alert : (o : Option Alert) → is_empty (with_status status o xs) ≡ false
    by_alert none = h
    by_alert (some alert) = refl

pub statuses-linked :
    (t i f : String) (rows : List LastAlert) (alerts : List Alert) (row : LastAlert) (alert : Alert)
    → find_row t f rows ≡ some row
    → find_alert row.alert_id alerts ≡ some alert
    → (links : List LastAlertToIncident) → contains (linked t i links) f ≡ true
    → is_empty (statuses alerts (linked_rows i rows links)) ≡ false
unfolding linked linked_rows
statuses-linked t i f rows alerts row alert h k [] e = absurd (cc)
statuses-linked t i f rows alerts row alert h k (link ∷ links) e =
    by_link (is_none link.deleted_at && link.incident_id == i)
      (link.tenant_id == t && link.fingerprint == f) refl refl
      (statuses-linked t i f rows alerts row alert h k links)
  where
    others : List LastAlert
    others = linked_rows i rows links

    found : Option LastAlert
    found = find_row link.tenant_id link.fingerprint rows

    by_link :
        (b same : Bool)
        → (is_none link.deleted_at && link.incident_id == i) ≡ b
        → (link.tenant_id == t && link.fingerprint == f) ≡ same
        → (contains (linked t i links) f ≡ true → is_empty (statuses alerts others) ≡ false)
        → is_empty (statuses alerts (if b then with_row found others else others)) ≡ false
    by_link false same d g rest = rest (ground (arith, d, e))
    by_link true false d g rest =
        ap is_empty (statuses-with_row alerts found others)
        ∙ is_empty-add_seen alerts (seen found) (statuses alerts others)
            (rest (ground (arith, d, g, e)))
    by_link true true d g rest =
        let same_tenant : link.tenant_id ≡ t = (eq_iff link.tenant_id t).0 (ground (arith, g)) in
        let same_name : link.fingerprint ≡ f = (eq_iff link.fingerprint f).0 (ground (arith, g)) in
        ap is_empty (statuses-with_row alerts found others)
        ∙ rw same_tenant (rw same_name (rw h (rw k refl)))

pub any-re_all :
    (w status : String) (xs : List (Json × Option String))
    → any (is_out_of status) (re_all w xs) ≡ (not (is_empty xs) && not (w == status))
any-re_all w status [] = refl
any-re_all w status ((old, of_alert) ∷ xs) = ground (arith, any-re_all w status xs)
