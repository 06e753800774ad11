-- ===== src/Alerts/Lifecycle.antt =====
-- `apply_dismiss_lifecycle` and `set_last_alert` of src/repositories/db.py: an alert that arrives
-- creates the row of its fingerprint or, when it is newer, takes it over.
use keep_api_gateway.Prelude.{
  ℕ, zero, suc, String, Bool, true, false, ◌||◌, Option, none, some, List, [], ◌∷◌, ◌==◌, ltb,
  contains, if◌then◌else◌, Result, ok, err,
}
use keep_api_gateway.Prelude.Dict.{Dict}
use keep_api_gateway.Prelude.Json.{Json}
use keep_api_gateway.Prelude.Json.Json.{null, bool, str}
use keep_api_gateway.Alerts.{LastAlert, tracking, defaults, column, set_column, truthy}
use keep_api_gateway.Alerts.Enrich.{find_row, update_row}

-- What `set_last_alert` reads of an `Alert`.
pub record Alert : Type 0 where
  pub id : String
  pub fingerprint : String
  pub timestamp : ℕ
  pub alert_hash : Option String
  pub status : String

abbrev pub is_ended : String → LastAlert → Bool
is_ended alert_status row = alert_status == "resolved" || truthy (column row "status_disposable")

abbrev pub start_afresh : String → LastAlert → LastAlert
start_afresh alert_status row =
    set_column
      (set_column
        (set_column (set_column row "status" (str alert_status)) "status_disposable" (bool true))
        "dismiss_mode" null)
      "dismissed_until" null

unfoldable pub apply_dismiss_lifecycle : String → LastAlert → LastAlert
apply_dismiss_lifecycle alert_status row =
    if is_ended alert_status row then start_afresh alert_status row else row

unfoldable pub is_tracking : String → Bool
is_tracking name = contains tracking name

-- Only tracking columns are written; other keys are logged and passed over.
unfoldable pub write_tracking : Dict Json → LastAlert → LastAlert
write_tracking [] row = row
write_tracking ((name, v) ∷ values) row =
    write_tracking values (if is_tracking name then set_column row name v else row)

abbrev pub with_tracking : Option (Dict Json) → LastAlert → LastAlert
with_tracking none row = row
with_tracking (some values) row = write_tracking values row

abbrev pub point_to : Alert → LastAlert → LastAlert
point_to alert row = record row {
  timestamp = alert.timestamp;
  alert_id = alert.id;
  alert_hash = alert.alert_hash;
}

unfoldable pub take_over : Alert → Option (Dict Json) → LastAlert → LastAlert
take_over alert values row =
    if ltb row.timestamp alert.timestamp
    then apply_dismiss_lifecycle alert.status (with_tracking values (point_to alert row))
    else row

abbrev pub fresh_row : String → Alert → LastAlert
fresh_row tenant_id alert = record {
  tenant_id = tenant_id;
  fingerprint = alert.fingerprint;
  alert_id = alert.id;
  timestamp = alert.timestamp;
  first_timestamp = alert.timestamp;
  alert_hash = alert.alert_hash;
  columns = defaults;
}

unfoldable pub new_row : String → Alert → Option (Dict Json) → LastAlert
new_row tenant_id alert values = with_tracking values (fresh_row tenant_id alert)

abbrev pub upsert_found :
    String → Alert → Option (Dict Json) → List LastAlert → Option LastAlert → List LastAlert
upsert_found tenant_id alert values rows none = new_row tenant_id alert values ∷ rows
upsert_found tenant_id alert values rows (some row) =
    update_row tenant_id alert.fingerprint (take_over alert values) rows

-- One attempt that reaches its commit.
unfoldable pub upsert : String → Alert → Option (Dict Json) → List LastAlert → List LastAlert
upsert tenant_id alert values rows =
    upsert_found tenant_id alert values rows (find_row tenant_id alert.fingerprint rows)

-- How the database answers an attempt: it commits, or rolls back with an exception; `deadlock` is an
-- OperationalError with one of the two messages that are tried again.
pub data Answer : Type 0 where
  committed integrity_error deadlock operational_error no_transaction internal_error : Answer

pub data Failure : Type 0 where
  raised : Answer → Failure
  runtime_error : Failure

abbrev pub is_final : Answer → Bool
is_final operational_error = true
is_final _ = false

-- One answer, with what the attempts after it make of the call.
unfoldable pub after_answer :
    (done : List LastAlert)
    → Answer
    → (left : ℕ) → Result Failure (List LastAlert)
    → Result Failure (List LastAlert)
after_answer done committed left retried = ok done
after_answer done failed zero retried = err (raised failed)
after_answer done failed (suc left) retried =
    if is_final failed then err (raised failed) else retried

-- The loop over the attempts: `n` is the number of the next one, `left` how many are left, and `done n`
-- the table that attempt `n` commits.
unfoldable pub attempt :
    (ℕ → Answer)
    → (done : ℕ → List LastAlert) → (left : ℕ) → (n : ℕ) → Result Failure (List LastAlert)
attempt answer done zero n = err runtime_error
attempt answer done (suc left) n =
    after_answer (done n) (answer n) left (attempt answer done left (suc n))

-- `tables n` is the table that attempt `n` reads, which other processes may have changed since the
-- attempt before; that one was rolled back and left nothing.
unfoldable pub set_last_alert :
    (ℕ → Answer)
    → (max_retries : ℕ) → String
    → Alert
    → Option (Dict Json)
    → (tables : ℕ → List LastAlert) → Result Failure (List LastAlert)
set_last_alert answer max_retries tenant_id alert values tables =
    attempt answer (λ n. upsert tenant_id alert values (tables n)) max_retries 1

-- Alerts of one tenant as they arrive, each with its tracking values.
unfoldable pub upsert_all :
    String → List (Alert × Option (Dict Json)) → List LastAlert → List LastAlert
upsert_all tenant_id [] rows = rows
upsert_all tenant_id ((alert, values) ∷ arrived) rows =
    upsert_all tenant_id arrived (upsert tenant_id alert values rows)
