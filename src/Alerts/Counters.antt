-- ===== src/Alerts/Counters.antt =====
-- The four calculations of src/utils/enrichment_helpers.py, on an occurrence of an alert and the one
-- before it.
use keep_api_gateway.Prelude.{
  ℕ, suc, String, not, ◌&&◌, Option, none, some, List, [], ◌∷◌, ◌==◌, if◌then◌else◌,
}

-- What they read of an `AlertDto`.
pub record Dto : Type 0 where
  pub status : String
  pub last_received : String
  pub firing_start_time : Option String
  pub firing_start_time_since_last_resolved : Option String
  pub firing_counter : ℕ
  pub unresolved_counter : ℕ

-- The previous alert: none, one, or a list whose first one counts.
pub data Previous : Type 0 where
  no_alert : Previous
  one : Dto → Previous
  listed : List Dto → Previous

-- `not previous_alert`, or the alert that counts
abbrev pub counted : Previous → Option Dto
counted no_alert = none
counted (one dto) = some dto
counted (listed []) = none
counted (listed (dto ∷ dtos)) = some dto

abbrev pub start_after : Dto → Option Dto → Option String
start_after alert none = some alert.last_received
start_after alert (some previous) =
    if previous.status == "firing" then previous.firing_start_time else some alert.last_received

unfoldable pub calculated_start_firing_time : Dto → Previous → Option String
calculated_start_firing_time alert previous =
    if not (alert.status == "firing") then none else start_after alert (counted previous)

-- A text that is there and not empty, as `if text:` asks for.
abbrev pub present : Option String → Option String
present none = none
present (some text) = if text == "" then none else some text

abbrev pub since_after : Dto → Option Dto → Option String
since_after alert none = if alert.status == "firing" then some alert.last_received else none
since_after alert (some previous) =
    if previous.status == "resolved" && alert.status == "firing"
    then some alert.last_received
    else present previous.firing_start_time_since_last_resolved

unfoldable pub calculate_firing_time_since_last_resolved : Dto → Previous → Option String
calculate_firing_time_since_last_resolved alert previous =
    if alert.status == "resolved" then none else since_after alert (counted previous)

abbrev pub count_after : String → Option Dto → (Dto → ℕ) → ℕ
count_after ending none counter = 1
count_after ending (some previous) counter =
    if previous.status == ending then 1 else suc (counter previous)

unfoldable pub calculated_firing_counter : Dto → Previous → ℕ
calculated_firing_counter alert previous =
    if alert.status == "acknowledged"
    then 0
    else count_after "acknowledged" (counted previous) (λ dto. dto.firing_counter)

unfoldable pub calculated_unresolved_counter : Dto → Previous → ℕ
calculated_unresolved_counter alert previous =
    if alert.status == "resolved"
    then 0
    else count_after "resolved" (counted previous) (λ dto. dto.unresolved_counter)

-- The fields of an occurrence once all four are calculated.
unfoldable pub tracked : Dto → Previous → Dto
tracked alert previous = record alert {
  firing_start_time = calculated_start_firing_time alert previous;
  firing_start_time_since_last_resolved = calculate_firing_time_since_last_resolved alert previous;
  firing_counter = calculated_firing_counter alert previous;
  unresolved_counter = calculated_unresolved_counter alert previous;
}

abbrev pub previous_of : Option Dto → Previous
previous_of none = no_alert
previous_of (some dto) = one dto

-- The last of the occurrences of an alert, the newest first, each calculated from the one before.
unfoldable pub track : List Dto → Option Dto
track [] = none
track (alert ∷ older) = some (tracked alert (previous_of (track older)))
