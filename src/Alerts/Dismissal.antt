-- ===== src/Alerts/Dismissal.antt =====
-- How long a dismissal lasts when new alerts arrive.
use keep_api_gateway.Prelude.{
  ℕ, String, Bool, true, false, ◌||◌, Option, none, some, List, [], ◌∷◌, ◌==◌, ◌≡◌, ◌∙◌, ◌<◌, sym,
  subst, refl, ap, arith, eq_iff, any, lt→ltb, if◌then◌else◌,
}
use keep_api_gateway.Prelude.Dict
use keep_api_gateway.Prelude.Dict.{Dict, get-put}
use keep_api_gateway.Prelude.Json.{Json}
use keep_api_gateway.Prelude.Json.Json.{null, str}
use keep_api_gateway.Alerts.{LastAlert, column, set_column, truthy, or_null}
use keep_api_gateway.Alerts.Enrich.{find_row}
use keep_api_gateway.Alerts.Lifecycle.{
  Alert, start_afresh, point_to, apply_dismiss_lifecycle, is_tracking, write_tracking,
  with_tracking, take_over, upsert_all,
}
use keep_api_gateway.Alerts.Arrivals.{Arrival, taken, arrive_all, alerts_of, find_row-upsert_all}

-- The status and the dismissal that a row holds.
abbrev pub dismissal_of : LastAlert → Json × Json × Json
dismissal_of row = (column row "status", column row "dismiss_mode", column row "dismissed_until")

abbrev pub is_disposable : LastAlert → Bool
is_disposable row = truthy (column row "status_disposable")

abbrev pub is_resolved : Arrival → Bool
is_resolved a = a.0.status == "resolved"

-- Every alert is newer than the one before it.
abbrev pub IsAscending : ℕ → List Arrival → Type 0
IsAscending time [] = Unit
IsAscending time (a ∷ arrived) = (time < a.0.timestamp) × IsAscending a.0.timestamp arrived

abbrev pub last_status : Arrival → List Arrival → String
last_status a [] = a.0.status
last_status a (b ∷ arrived) = last_status b arrived

write_tracking-column :
    (name : String) (values : Dict Json) (row : LastAlert)
    → is_tracking name ≡ false
    → column (write_tracking values row) name ≡ column row name
unfolding write_tracking
write_tracking-column name [] row h = refl
write_tracking-column name ((k, v) ∷ values) row h =
    write_tracking-column name values (if is_tracking k then set_column row k v else row) h
    ∙ by_test (is_tracking k) refl
  where
    by_name :
        (b : Bool)
        → (k == name) ≡ b
        → is_tracking k ≡ true
        → or_null (if b then some v else Dict.get row.columns name) ≡ column row name
    by_name true e t = absurd (ground (arith, h, t, ap is_tracking ((eq_iff k name).0 e)))
    by_name false e t = refl

    by_test :
        (b : Bool)
        → is_tracking k ≡ b
        → column (if b then set_column row k v else row) name ≡ column row name
    by_test false t = refl
    by_test true t = ap or_null (get-put k name v row.columns) ∙ by_name (k == name) refl t

with_tracking-column :
    (name : String) (values : Option (Dict Json)) (row : LastAlert)
    → is_tracking name ≡ false
    → column (with_tracking values row) name ≡ column row name
with_tracking-column name none row h = refl
with_tracking-column name (some values) row h = write_tracking-column name values row h

tracked-dismissal_of :
    (values : Option (Dict Json)) (row : LastAlert)
    → (dismissal_of (with_tracking values row) ≡ dismissal_of row)
      × (is_disposable (with_tracking values row) ≡ is_disposable row)
unfolding is_tracking
tracked-dismissal_of values row = (
  rw (with_tracking-column "status" values row refl) (
      rw (with_tracking-column "dismiss_mode" values row refl)
        (rw (with_tracking-column "dismissed_until" values row refl) refl)),
  ap truthy (with_tracking-column "status_disposable" values row refl),
)

started-dismissal_of :
    (status : String) (row : LastAlert)
    → (dismissal_of (start_afresh status row) ≡ (str status, null, null))
      × (is_disposable (start_afresh status row) ≡ true)
started-dismissal_of status row = (simp (get-put), simp (get-put))

-- Whether the dismissal of a row ends at an alert.
abbrev ends_at : LastAlert → Arrival → Bool
ends_at row a = is_resolved a || is_disposable row

right_false : (x y : Bool) → (x || y) ≡ false → y ≡ false
right_false true y e = absurd (cc)
right_false false y e = e

chain {ℓ} :
    {A : Type ℓ} (x y more : Bool) (last now old : A)
    → (if (x || y) || more then last else (if x || y then now else old))
      ≡ (if y || (x || more) then last else old)
chain true true more last now old = refl
chain true false more last now old = refl
chain false true more last now old = refl
chain false false true last now old = refl
chain false false false last now old = refl

single {ℓ} :
    {A : Type ℓ} (x y : Bool) (now old : A)
    → (if x || y then now else old) ≡ (if y || (x || false) then now else old)
single true true now old = refl
single true false now old = refl
single false true now old = refl
single false false now old = refl

ended :
    (a : Alert) (row tracked : LastAlert)
    → dismissal_of tracked ≡ dismissal_of row
    → is_disposable tracked ≡ is_disposable row
    → (dismissal_of (apply_dismiss_lifecycle a.status tracked) ≡ (
        if a.status == "resolved" || is_disposable row
        then (str a.status, null, null)
        else dismissal_of row))
      × (is_disposable (apply_dismiss_lifecycle a.status tracked)
          ≡ (a.status == "resolved" || is_disposable row))
unfolding apply_dismiss_lifecycle
ended a row tracked kept flag =
    rw (flag) (by_test (a.status == "resolved" || is_disposable row) refl)
  where
    by_test :
        (b : Bool)
        → (a.status == "resolved" || is_disposable row) ≡ b
        → (dismissal_of (if b then start_afresh a.status tracked else tracked)
            ≡ (if b then (str a.status, null, null) else dismissal_of row))
          × (is_disposable (if b then start_afresh a.status tracked else tracked) ≡ b)
    by_test true e = started-dismissal_of a.status tracked
    by_test false e = (kept, flag ∙ right_false (a.status == "resolved") (is_disposable row) e)

take_over-dismissal_of :
    (a : Alert) (v : Option (Dict Json)) (row : LastAlert)
    → row.timestamp < a.timestamp
    → (dismissal_of (take_over a v row)
        ≡ (if ends_at row (a, v) then (str a.status, null, null) else dismissal_of row))
      × (is_disposable (take_over a v row) ≡ ends_at row (a, v))
      × ((take_over a v row).timestamp ≡ a.timestamp)
unfolding take_over
take_over-dismissal_of a v row newer = rw (lt→ltb row.timestamp a.timestamp newer) (
    let tracked = tracked-dismissal_of v (point_to a row) in
    let e = ended a row (with_tracking v (point_to a row)) tracked.0 tracked.1 in
    (e.0, e.1, (taken a v row).3))

arrive_all-dismissal_of :
    (t : String) (arrived : List Arrival) (a : Arrival) (row : LastAlert)
    → IsAscending row.timestamp (a ∷ arrived)
    → (later : LastAlert) × (arrive_all t (a ∷ arrived) (some row) ≡ some later)
      × (dismissal_of later ≡ (
          if is_disposable row || any is_resolved (a ∷ arrived)
          then (str (last_status a arrived), null, null)
          else dismissal_of row))
arrive_all-dismissal_of t [] (a, v) row h =
    let e = take_over-dismissal_of a v row h.0 in
    (take_over a v row, refl, e.0 ∙ single (is_resolved (a, v)) (is_disposable row) _ _)
arrive_all-dismissal_of t (b ∷ arrived) (a, v) row h =
    let e = take_over-dismissal_of a v row h.0 in
    let (later, found, dismissal) =
      arrive_all-dismissal_of t arrived b (take_over a v row)
        (subst (λ time. IsAscending time (b ∷ arrived)) (sym e.2) h.1) in
    let last : Json × Json × Json = (str (last_status b arrived), null, null) in
    let more = any is_resolved (b ∷ arrived) in
    (
      later,
      found,
      dismissal
          ∙ ap (λ x. if x || more then last else dismissal_of (take_over a v row)) e.1
          ∙ ap (λ x. if ends_at row (a, v) || more then last else x) e.0
          ∙ chain (is_resolved (a, v)) (is_disposable row) more last (str a.status, null, null)
              (dismissal_of row),
    )

-- When newer and newer alerts arrive for a row, the last of them is its status and nothing of its
-- dismissal is left if one of them was resolved or the row was marked as disposable; otherwise its
-- status and its dismissal are kept, with a time limit or without one.
pub upsert_all-dismissal_of :
    (t f : String) (arrived more : List Arrival) (a : Arrival) (rows : List LastAlert)
    (row : LastAlert)
    → find_row t f rows ≡ some row
    → alerts_of f arrived ≡ a ∷ more
    → IsAscending row.timestamp (a ∷ more)
    → (later : LastAlert) × (find_row t f (upsert_all t arrived rows) ≡ some later)
      × (dismissal_of later ≡ (
          if is_disposable row || any is_resolved (a ∷ more)
          then (str (last_status a more), null, null)
          else dismissal_of row))
upsert_all-dismissal_of t f arrived more a rows row found alerts ascending =
    let (later, e, dismissal) = arrive_all-dismissal_of t more a row ascending in
    (
      later,
      find_row-upsert_all t f arrived rows
          ∙ ap (arrive_all t (alerts_of f arrived)) found
          ∙ ap (λ x. arrive_all t x (some row)) alerts
          ∙ e,
      dismissal,
    )
