-- ===== src/Alerts/Newest.antt =====
-- The row of a fingerprint stands for the newest of its alerts.
use keep_api_gateway.Prelude.{
  String, Bool, true, false, Option, none, some, List, [], ◌∷◌, ◌≡◌, ◌∙◌, ◌≤◌, ◌<◌, ◌⊎◌, inl, inr,
  sym, subst, refl, ap, arith, ltb, All, if◌then◌else◌,
}
use keep_api_gateway.Prelude.Dict.{Dict}
use keep_api_gateway.Prelude.Json.{Json}
use keep_api_gateway.Alerts.{LastAlert}
use keep_api_gateway.Alerts.Enrich.{find_row}
use keep_api_gateway.Alerts.Lifecycle.{
  Alert, point_to, apply_dismiss_lifecycle, with_tracking, take_over, fresh_row, new_row,
  upsert_all,
}
use keep_api_gateway.Alerts.Arrivals.{
  Arrival, IsSamePoint, taken, with_tracking-IsSamePoint, arrive_all, alerts_of,
  find_row-upsert_all,
}

-- One of the alerts is the one that the row points to.
abbrev pub HasPointed : LastAlert → List Arrival → Type 0
HasPointed row [] = ⊥
HasPointed row ((a, v) ∷ arrived) =
    ((row.alert_id ≡ a.id) × (row.timestamp ≡ a.timestamp) × (row.alert_hash ≡ a.alert_hash))
    ⊎ HasPointed row arrived

-- No alert is newer than the row.
abbrev pub NoneNewer : LastAlert → List Arrival → Type 0
NoneNewer row arrived = All (λ a. a.0.timestamp ≤ row.timestamp) arrived

-- The alerts leave the row of the fingerprint: none, if there was no alert.
abbrev pub IsNewest : List Arrival → Option LastAlert → Type 0
IsNewest [] o = o ≡ none
IsNewest ((first, v) ∷ arrived) o =
    (row : LastAlert) × (o ≡ some row)
    × HasPointed row ((first, v) ∷ arrived)
    × NoneNewer row ((first, v) ∷ arrived)
    × (row.first_timestamp ≡ first.timestamp)

-- Either the alert is newer and the row points to it, or the row stays.
take_over-cases :
    (a : Alert) (v : Option (Dict Json)) (row : LastAlert)
    → ((row.timestamp < a.timestamp) × IsSamePoint (take_over a v row) (point_to a row))
      ⊎ ((a.timestamp ≤ row.timestamp) × (take_over a v row ≡ row))
unfolding take_over
take_over-cases a v row = by_test (ltb row.timestamp a.timestamp) refl
  where
    by_test :
        (b : Bool)
        → ltb row.timestamp a.timestamp ≡ b
        → (let next =
              if b
              then apply_dismiss_lifecycle a.status (with_tracking v (point_to a row))
              else row in
            ((row.timestamp < a.timestamp) × IsSamePoint next (point_to a row))
            ⊎ ((a.timestamp ≤ row.timestamp) × (next ≡ row)))
    by_test true e = inl (ground arith, taken a v row)
    by_test false e = inr (ground arith, refl)

-- Two rows point to one alert.
abbrev IsAt : LastAlert → LastAlert → Type 0
IsAt later row =
    (later.alert_id ≡ row.alert_id)
    × (later.timestamp ≡ row.timestamp)
    × (later.alert_hash ≡ row.alert_hash)

-- What a row becomes when more alerts of its fingerprint arrive.
abbrev IsLater : LastAlert → List Arrival → Option LastAlert → Type 0
IsLater row arrived o =
    (later : LastAlert) × (o ≡ some later)
    × (row.timestamp ≤ later.timestamp)
    × (IsAt later row ⊎ HasPointed later arrived)
    × NoneNewer later arrived
    × (later.first_timestamp ≡ row.first_timestamp)

arrive_all-IsLater :
    (t : String) (arrived : List Arrival) (row : LastAlert)
    → IsLater row arrived (arrive_all t arrived (some row))
arrive_all-IsLater t [] row = (row, refl, omega arith, inl (refl, refl, refl), tt, refl)
arrive_all-IsLater t ((a, v) ∷ arrived) row =
    joined (take_over-cases a v row) (arrive_all-IsLater t arrived (take_over a v row))
  where
    moved :
        (later : LastAlert)
        → IsSamePoint (take_over a v row) (point_to a row)
        → IsAt later (take_over a v row) ⊎ HasPointed later arrived
        → HasPointed later ((a, v) ∷ arrived)
    moved later point (inl at) = inl (at.0 ∙ point.2, at.1 ∙ point.3, at.2 ∙ point.5)
    moved later point (inr among) = inr among

    kept :
        (later : LastAlert)
        → take_over a v row ≡ row
        → IsAt later (take_over a v row) ⊎ HasPointed later arrived
        → IsAt later row ⊎ HasPointed later ((a, v) ∷ arrived)
    kept later stays (inl at) = inl (subst (IsAt later) stays at)
    kept later stays (inr among) = inr (inr among)

    joined :
        ((row.timestamp < a.timestamp) × IsSamePoint (take_over a v row) (point_to a row))
          ⊎ ((a.timestamp ≤ row.timestamp) × (take_over a v row ≡ row))
        → IsLater (take_over a v row) arrived (arrive_all t arrived (some (take_over a v row)))
        → IsLater row ((a, v) ∷ arrived) (arrive_all t arrived (some (take_over a v row)))
    joined (inl (newer, point)) (later, e, le, from, none_newer, first) = (
      later,
      e,
      omega (arith, newer, le, point.3),
      inr (moved later point from),
      (omega (arith, le, point.3), none_newer),
      first ∙ point.4,
    )
    joined (inr (older, stays)) (later, e, le, from, none_newer, first) =
        let same_time = ap (λ x. x.timestamp) stays in
        (
          later,
          e,
          omega (arith, le, same_time),
          kept later stays from,
          (omega (arith, older, le, same_time), none_newer),
          first ∙ ap (λ x. x.first_timestamp) stays,
        )

arrive_all-IsNewest :
    (t : String) (arrived : List Arrival) → IsNewest arrived (arrive_all t arrived none)
unfolding new_row
arrive_all-IsNewest t [] = refl
arrive_all-IsNewest t ((a, v) ∷ arrived) =
    joined (with_tracking-IsSamePoint v (fresh_row t a))
      (arrive_all-IsLater t arrived (new_row t a v))
  where
    from_first :
        (later : LastAlert)
        → IsSamePoint (new_row t a v) (fresh_row t a)
        → IsAt later (new_row t a v) ⊎ HasPointed later arrived
        → HasPointed later ((a, v) ∷ arrived)
    from_first later point (inl at) = inl (at.0 ∙ point.2, at.1 ∙ point.3, at.2 ∙ point.5)
    from_first later point (inr among) = inr among

    joined :
        IsSamePoint (new_row t a v) (fresh_row t a)
        → IsLater (new_row t a v) arrived (arrive_all t arrived (some (new_row t a v)))
        → IsNewest ((a, v) ∷ arrived) (arrive_all t arrived (some (new_row t a v)))
    joined point (later, e, le, from, none_newer, first) = (
      later,
      e,
      from_first later point from,
      (omega (arith, le, point.3), none_newer),
      first ∙ point.4,
    )

-- When alerts of a tenant arrive, in whatever order and among those of other fingerprints, and there was
-- no row for a fingerprint, then the row it gets points to one of its alerts that none is newer than,
-- and keeps the timestamp of the one that arrived first; without an alert it gets no row.
pub upsert_all-IsNewest :
    (t f : String) (arrived : List Arrival) (rows : List LastAlert)
    → find_row t f rows ≡ none
    → IsNewest (alerts_of f arrived) (find_row t f (upsert_all t arrived rows))
upsert_all-IsNewest t f arrived rows h =
    subst (IsNewest (alerts_of f arrived))
      (sym (find_row-upsert_all t f arrived rows ∙ ap (arrive_all t (alerts_of f arrived)) h))
      (arrive_all-IsNewest t (alerts_of f arrived))
