-- ===== src/Alerts/Arrivals.antt =====
-- The table after alerts arrived, seen from the row of one fingerprint.
use keep_api_gateway.Prelude.{
  String, Bool, true, false, ◌&&◌, Option, none, some, List, [], ◌∷◌, ◌==◌, ◌≡◌, ◌∙◌, subst, refl,
  ap, eq_iff, eq_refl, ltb, if◌then◌else◌,
}
use keep_api_gateway.Prelude.Dict.{Dict}
use keep_api_gateway.Prelude.Json.{Json}
use keep_api_gateway.Alerts.{LastAlert, set_column}
use keep_api_gateway.Alerts.Enrich.{is_row, find_row}
use keep_api_gateway.Alerts.Lifecycle.{
  Alert, is_ended, start_afresh, point_to, apply_dismiss_lifecycle, is_tracking, write_tracking,
  with_tracking, take_over, fresh_row, new_row, upsert_found, upsert, upsert_all,
}
use keep_api_gateway.Alerts.Stored.{map_row, find_row-update_row, find_row-update_row_other}

abbrev pub Arrival : Type 0
Arrival = Alert × Option (Dict Json)

-- What identifies a row, what it points to, and the first timestamp.
abbrev pub IsSamePoint : LastAlert → LastAlert → Type 0
IsSamePoint a b =
    (a.tenant_id ≡ b.tenant_id)
    × (a.fingerprint ≡ b.fingerprint)
    × (a.alert_id ≡ b.alert_id)
    × (a.timestamp ≡ b.timestamp)
    × (a.first_timestamp ≡ b.first_timestamp)
    × (a.alert_hash ≡ b.alert_hash)

same_point : (row : LastAlert) → IsSamePoint row row
same_point row = (refl, refl, refl, refl, refl, refl)

after_same : (a b c : LastAlert) → IsSamePoint a b → IsSamePoint b c → IsSamePoint a c
after_same a b c h k = (h.0 ∙ k.0, h.1 ∙ k.1, h.2 ∙ k.2, h.3 ∙ k.3, h.4 ∙ k.4, h.5 ∙ k.5)

write_tracking-IsSamePoint :
    (values : Dict Json) (row : LastAlert) → IsSamePoint (write_tracking values row) row
unfolding write_tracking
write_tracking-IsSamePoint [] row = same_point row
write_tracking-IsSamePoint ((name, v) ∷ values) row =
    let next = if is_tracking name then set_column row name v else row in
    after_same (write_tracking values next) next row (write_tracking-IsSamePoint values next)
      (by_test (is_tracking name))
  where
    by_test : (b : Bool) → IsSamePoint (if b then set_column row name v else row) row
    by_test true = same_point row
    by_test false = same_point row

pub with_tracking-IsSamePoint :
    (values : Option (Dict Json)) (row : LastAlert) → IsSamePoint (with_tracking values row) row
with_tracking-IsSamePoint none row = same_point row
with_tracking-IsSamePoint (some values) row = write_tracking-IsSamePoint values row

apply_dismiss_lifecycle-IsSamePoint :
    (status : String) (row : LastAlert) → IsSamePoint (apply_dismiss_lifecycle status row) row
unfolding apply_dismiss_lifecycle
apply_dismiss_lifecycle-IsSamePoint status row = by_test (is_ended status row)
  where
    by_test : (b : Bool) → IsSamePoint (if b then start_afresh status row else row) row
    by_test true = same_point row
    by_test false = same_point row

pub taken :
    (alert : Alert) (values : Option (Dict Json)) (row : LastAlert)
    → IsSamePoint
        (apply_dismiss_lifecycle alert.status (with_tracking values (point_to alert row)))
        (point_to alert row)
taken alert values row =
    let tracked = with_tracking values (point_to alert row) in
    after_same (apply_dismiss_lifecycle alert.status tracked) tracked (point_to alert row)
      (apply_dismiss_lifecycle-IsSamePoint alert.status tracked)
      (with_tracking-IsSamePoint values (point_to alert row))

-- One arrival, seen from the row of its fingerprint.
abbrev pub arrive : String → Arrival → Option LastAlert → LastAlert
arrive tenant_id (alert, values) none = new_row tenant_id alert values
arrive tenant_id (alert, values) (some row) = take_over alert values row

abbrev pub arrive_all : String → List Arrival → Option LastAlert → Option LastAlert
arrive_all tenant_id [] o = o
arrive_all tenant_id (a ∷ arrived) o = arrive_all tenant_id arrived (some (arrive tenant_id a o))

-- The arrivals of a fingerprint.
unfoldable pub alerts_of : String → List Arrival → List Arrival
alerts_of fingerprint [] = []
alerts_of fingerprint (a ∷ arrived) =
    let rest = alerts_of fingerprint arrived in
    if a.0.fingerprint == fingerprint then a ∷ rest else rest

same_key : (t f : String) (a b : LastAlert) → IsSamePoint a b → is_row t f a ≡ is_row t f b
same_key t f a b h =
    ap (λ x. x == t && a.fingerprint == f) h.0 ∙ ap (λ x. b.tenant_id == t && x == f) h.1

is_row-take_over :
    (t f : String) (a : Alert) (v : Option (Dict Json)) (row : LastAlert)
    → is_row t f (take_over a v row) ≡ is_row t f row
unfolding take_over
is_row-take_over t f a v row = by_test (ltb row.timestamp a.timestamp)
  where
    by_test :
        (b : Bool)
        → is_row t f
            (if b then apply_dismiss_lifecycle a.status (with_tracking v (point_to a row)) else row)
          ≡ is_row t f row
    by_test true =
        same_key t f (apply_dismiss_lifecycle a.status (with_tracking v (point_to a row)))
          (point_to a row) (taken a v row)
    by_test false = refl

is_row-new_row :
    (t g : String) (a : Alert) (v : Option (Dict Json))
    → is_row t g (new_row t a v) ≡ (a.fingerprint == g)
unfolding new_row
is_row-new_row t g a v =
    same_key t g (with_tracking v (fresh_row t a)) (fresh_row t a)
      (with_tracking-IsSamePoint v (fresh_row t a))
    ∙ rw (eq_refl t) refl

find_row-upsert :
    (t : String) (a : Alert) (v : Option (Dict Json)) (rows : List LastAlert)
    → find_row t a.fingerprint (upsert t a v rows)
      ≡ some (arrive t (a, v) (find_row t a.fingerprint rows))
unfolding upsert find_row new_row
find_row-upsert t a v rows = by_found (find_row t a.fingerprint rows) refl
  where
    by_found :
        (o : Option LastAlert)
        → find_row t a.fingerprint rows ≡ o
        → find_row t a.fingerprint (upsert_found t a v rows o) ≡ some (arrive t (a, v) o)
    by_found none e = rw (is_row-new_row t a.fingerprint a v ∙ eq_refl a.fingerprint) refl
    by_found (some row) e =
        find_row-update_row t a.fingerprint (take_over a v) (is_row-take_over t a.fingerprint a v)
          rows
        ∙ ap (map_row (take_over a v)) e

find_row-upsert_other :
    (t g : String) (a : Alert) (v : Option (Dict Json)) (rows : List LastAlert)
    → (a.fingerprint == g) ≡ false
    → find_row t g (upsert t a v rows) ≡ find_row t g rows
unfolding upsert find_row
find_row-upsert_other t g a v rows differ = by_found (find_row t a.fingerprint rows)
  where
    by_found : (o : Option LastAlert) → find_row t g (upsert_found t a v rows o) ≡ find_row t g rows
    by_found none = rw (is_row-new_row t g a v ∙ differ) refl
    by_found (some row) =
        find_row-update_row_other t a.fingerprint t g (take_over a v) (is_row-take_over t g a v)
          (rw (eq_refl t) (rw differ refl)) rows

pub find_row-upsert_all :
    (t f : String) (arrived : List Arrival) (rows : List LastAlert)
    → find_row t f (upsert_all t arrived rows)
      ≡ arrive_all t (alerts_of f arrived) (find_row t f rows)
unfolding upsert_all alerts_of
find_row-upsert_all t f [] rows = refl
find_row-upsert_all t f ((a, v) ∷ arrived) rows =
    find_row-upsert_all t f arrived (upsert t a v rows) ∙ by_key (a.fingerprint == f) refl
  where
    by_key :
        (b : Bool)
        → (a.fingerprint == f) ≡ b
        → arrive_all t (alerts_of f arrived) (find_row t f (upsert t a v rows))
          ≡ arrive_all t
              (if b then (a, v) ∷ alerts_of f arrived else alerts_of f arrived)
              (find_row t f rows)
    by_key true e = ap (arrive_all t (alerts_of f arrived)) (
        subst (λ x. find_row t x (upsert t a v rows) ≡ some (arrive t (a, v) (find_row t x rows)))
          ((eq_iff a.fingerprint f).0 e) (find_row-upsert t a v rows))
    by_key false e = ap (arrive_all t (alerts_of f arrived)) (find_row-upsert_other t f a v rows e)
