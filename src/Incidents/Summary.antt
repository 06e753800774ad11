-- ===== src/Incidents/Summary.antt =====
-- What an incident sums up of alerts: `get_alerts_data_for_incident` of src/repositories/db.py and the
-- queries of first and last times.
use keep_api_gateway.Prelude.{
  ℕ, String, ◌&&◌, Option, none, some, List, [], ◌∷◌, ◌++◌, ◌==◌, ltb, contains, if◌then◌else◌,
  Result, ok, err, ◌>>=◌, min,
}
use keep_api_gateway.Alerts.{LastAlert}
use keep_api_gateway.Incidents.{Alert, Tables, Failure, value_error, find_alert, distinct}

-- The orders of `IncidentSeverity`
abbrev pub severity_order : String → Option ℕ
severity_order name =
    if name == "critical"
    then some 5
    else if name == "high"
    then some 4
    else if name == "warning"
    then some 3
    else if name == "info"
    then some 2
    else if name == "low"
    then some 1
    else none

-- The alerts that last alerts point to.
unfoldable pub pointed : List Alert → List LastAlert → List Alert
pointed alerts [] = []
pointed alerts (row ∷ rows) = with_found (find_alert row.alert_id alerts) (pointed alerts rows)
  where
    with_found : Option Alert → List Alert → List Alert
    with_found none rest = rest
    with_found (some alert) rest = alert ∷ rest

-- The last alerts of a tenant with one of some fingerprints.
unfoldable pub rows_of : String → List String → List LastAlert → List LastAlert
rows_of tenant_id fingerprints [] = []
rows_of tenant_id fingerprints (row ∷ rows) =
    let rest = rows_of tenant_id fingerprints rows in
    if row.tenant_id == tenant_id && contains fingerprints row.fingerprint then row ∷ rest else rest

abbrev pub last_occurrences : Tables → String → List String → List Alert
last_occurrences tables tenant_id fingerprints =
    pointed tables.alerts (rows_of tenant_id fingerprints tables.last_alerts)

-- A text that is there and not empty.
abbrev pub present : Option String → List String
present none = []
present (some text) = if text == "" then [] else text ∷ []

unfoldable pub sources_of : List Alert → List String
sources_of [] = []
sources_of (alert ∷ alerts) = present (some alert.provider_type) ++ sources_of alerts

unfoldable pub services_of : List Alert → List String
services_of [] = []
services_of (alert ∷ alerts) = present alert.service ++ services_of alerts

abbrev pub max : ℕ → ℕ → ℕ
max a b = if ltb a b then b else a

abbrev pub with_severity : List String → Result Failure ℕ → Result Failure ℕ
with_severity [] highest = highest
with_severity (name ∷ names) highest = known (severity_order name) highest
  where
    known : Option ℕ → Result Failure ℕ → Result Failure ℕ
    known none highest = err value_error
    known (some order) highest = highest >>= λ h. ok (max order h)

-- The highest order of the severities, LOW where there is none; an unknown one is a ValueError.
unfoldable pub max_severity : List Alert → Result Failure ℕ
max_severity [] = ok 1
max_severity (alert ∷ alerts) = with_severity (present alert.severity) (max_severity alerts)

pub record AlertsData : Type 0 where
  pub sources : List String
  pub services : List String
  pub max_severity : ℕ

unfoldable pub get_alerts_data_for_incident :
    Tables → String → List String → Result Failure AlertsData
get_alerts_data_for_incident tables tenant_id fingerprints =
    let alerts = last_occurrences tables tenant_id fingerprints in
    max_severity alerts >>= λ highest. ok (record {
      sources = distinct (sources_of alerts);
      services = distinct (services_of alerts);
      max_severity = highest;
    })

-- `coalesce(received_at, timestamp)`
abbrev pub received : Alert → ℕ
received alert = at alert.received_at
  where
    at : Option ℕ → ℕ
    at none = alert.timestamp
    at (some time) = time

abbrev pub earlier : ℕ → Option ℕ → Option ℕ
earlier time none = some time
earlier time (some other) = some (min time other)

abbrev pub later : ℕ → Option ℕ → Option ℕ
later time none = some time
later time (some other) = some (max time other)

unfoldable pub first_time : List Alert → Option ℕ
first_time [] = none
first_time (alert ∷ alerts) = earlier (received alert) (first_time alerts)

unfoldable pub last_time : List Alert → Option ℕ
last_time [] = none
last_time (alert ∷ alerts) = later (received alert) (last_time alerts)

-- Every occurrence of the alerts with one of some fingerprints.
unfoldable pub occurrences : String → List String → List Alert → List Alert
occurrences tenant_id fingerprints [] = []
occurrences tenant_id fingerprints (alert ∷ alerts) =
    let rest = occurrences tenant_id fingerprints alerts in
    if alert.tenant_id == tenant_id && contains fingerprints alert.fingerprint
    then alert ∷ rest
    else rest
