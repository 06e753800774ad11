-- ===== src/Alerts.antt =====
-- src/models/db/alert.py and src/repositories/db.py: the row of `lastalert`, one for each fingerprint,
-- that keeps what users and the system note on an alert. A column that the code writes by its name
-- (`setattr`) is an entry of a dict; one that is missing there holds its default.
pub mod Normalize
pub mod Known
pub mod Settled
pub mod Enrich
pub mod Written
pub mod Dicts
pub mod Stored
pub mod Batch
pub mod Lifecycle
pub mod Arrivals
pub mod Newest
pub mod Dismissal
pub mod Attempts
pub mod Counters
pub mod Histories
pub mod Tests
use keep_api_gateway.Prelude.{
  ℕ, String, Bool, true, false, not, Option, none, some, List, [], ◌∷◌, ◌==◌, if◌then◌else◌,
}
use keep_api_gateway.Prelude.Dict
use keep_api_gateway.Prelude.Dict.{Dict}
use keep_api_gateway.Prelude.Json.{Json, Items, Fields}
use keep_api_gateway.Prelude.Json.Json.{null, bool, number, str, arr, obj}

pub record LastAlert : Type 0 where
  pub tenant_id : String
  pub fingerprint : String
  pub alert_id : String
  pub timestamp : ℕ
  pub first_timestamp : ℕ
  pub alert_hash : Option String
  pub columns : Dict Json

-- The columns tagged "enrichable", which users and enrichment rules write.
abbrev pub enrichable : List String
enrichable =
    "status" ∷ "status_disposable" ∷ "dismiss_mode" ∷ "dismissed_until" ∷ "assignee" ∷ "note"
    ∷ "deleted" ∷ "ticket_type" ∷ "ticket_url" ∷ "ticket_provider_id" ∷ []

-- The columns tagged "tracking", which the system writes.
abbrev pub tracking : List String
tracking =
    "last_received" ∷ "firing_counter" ∷ "unresolved_counter" ∷ "started_at" ∷ "firing_start_time"
    ∷ "firing_start_time_since_last_resolved" ∷ []

abbrev pub defaults : Dict Json
defaults =
    ("status_disposable", bool false)
    ∷ ("deleted", bool false)
    ∷ ("firing_counter", number "0")
    ∷ ("unresolved_counter", number "0")
    ∷ []

abbrev pub or_null : Option Json → Json
or_null none = null
or_null (some v) = v

abbrev pub column : LastAlert → String → Json
column row name = or_null (Dict.get row.columns name)

-- `setattr(last_alert, name, value)`
abbrev pub set_column : LastAlert → String → Json → LastAlert
set_column row name v = record row { columns = Dict.put row.columns name v }

-- Whether Python takes a value for true; a number is written without a sign or leading zeros.
abbrev pub truthy : Json → Bool
truthy null = false
truthy (bool b) = b
truthy (number n) = not (n == "0")
truthy (str s) = not (s == "")
truthy (arr Items.nil) = false
truthy (arr (Items.cons v vs)) = true
truthy (obj Fields.end) = false
truthy (obj (Fields.field k v fs)) = true
