-- ===== src/Alerts/Histories.antt =====
-- The tracking fields against the history of the alert.
use keep_api_gateway.Prelude.{
  String, Bool, true, false, Option, none, some, List, [], ◌∷◌, ◌==◌, ◌≡◌, refl, ap, arith, length,
  All, if◌then◌else◌,
}
use keep_api_gateway.Alerts.Counters.{
  Dto, one, no_alert, present, calculated_start_firing_time,
  calculate_firing_time_since_last_resolved, calculated_firing_counter,
  calculated_unresolved_counter, tracked, previous_of, track,
}

-- The occurrences, the newest first, that are newer than the last one with a status.
unfoldable pub newer_than : String → List Dto → List Dto
newer_than status [] = []
newer_than status (a ∷ older) =
    let rest = newer_than status older in if a.status == status then [] else a ∷ rest

-- The occurrences of the run of firing that is not over.
unfoldable pub firing_run : List Dto → List Dto
firing_run [] = []
firing_run (a ∷ older) =
    let rest = firing_run older in if a.status == "firing" then a ∷ rest else []

abbrev pub oldest : List Dto → Option Dto
oldest [] = none
oldest (a ∷ []) = some a
oldest (a ∷ b ∷ older) = oldest (b ∷ older)

abbrev pub received : Option Dto → Option String
received none = none
received (some a) = some a.last_received

abbrev pub received_firing : Option Dto → Option String
received_firing none = none
received_firing (some a) = if a.status == "firing" then some a.last_received else none

-- Every occurrence says when it was received.
abbrev pub IsReceived : List Dto → Type 0
IsReceived history = All (λ a. (a.last_received == "") ≡ false) history

-- What the calculated fields say of a history, the newest occurrence first.
abbrev pub IsTracked : List Dto → Dto → Type 0
IsTracked history dto =
    (dto.firing_counter ≡ length (newer_than "acknowledged" history))
    × (dto.unresolved_counter ≡ length (newer_than "resolved" history))
    × (dto.firing_start_time ≡ received (oldest (firing_run history)))
    × (dto.firing_start_time_since_last_resolved
        ≡ received_firing (oldest (newer_than "resolved" history)))

newer_than-IsReceived :
    (status : String) (history : List Dto)
    → IsReceived history
    → IsReceived (newer_than status history)
unfolding newer_than
newer_than-IsReceived status [] h = tt
newer_than-IsReceived status (a ∷ older) h =
    by_test (a.status == status) (newer_than-IsReceived status older h.1)
  where
    by_test :
        (b : Bool)
        → IsReceived (newer_than status older)
        → IsReceived (if b then [] else a ∷ newer_than status older)
    by_test true rest = tt
    by_test false rest = (h.0, rest)

present-oldest :
    (xs : List Dto)
    → IsReceived xs
    → present (received_firing (oldest xs)) ≡ received_firing (oldest xs)
present-oldest [] h = refl
present-oldest (a ∷ []) h = ground (arith, h.0)
present-oldest (a ∷ b ∷ xs) h = present-oldest (b ∷ xs) h.1

shown :
    (b : Dto) (older : List Dto)
    → IsReceived (b ∷ older)
    → present (received_firing (oldest (b ∷ newer_than "resolved" older)))
      ≡ received_firing (oldest (b ∷ newer_than "resolved" older))
shown b older h =
    present-oldest (b ∷ newer_than "resolved" older)
      (h.0, newer_than-IsReceived "resolved" older h.1)

first_tracked : (a : Dto) → IsTracked (a ∷ []) (tracked a no_alert)
unfolding tracked calculated_start_firing_time calculate_firing_time_since_last_resolved
    calculated_firing_counter calculated_unresolved_counter newer_than firing_run
first_tracked a = (ground arith, ground arith, ground arith, ground arith)

later_tracked :
    (a b previous : Dto) (older : List Dto)
    → IsReceived (b ∷ older)
    → previous.status ≡ b.status
    → IsTracked (b ∷ older) previous
    → IsTracked (a ∷ b ∷ older) (tracked a (one previous))
unfolding tracked calculated_start_firing_time calculate_firing_time_since_last_resolved
    calculated_firing_counter calculated_unresolved_counter newer_than firing_run
later_tracked a b previous older known status (firing, unresolved, start, since) = (
  ground (arith, firing, status),
  ground (arith, unresolved, status),
  ground (arith, start, status),
  ground (arith, since, status, shown b older known),
)

abbrev IsLast : Dto → List Dto → Option Dto → Type 0
IsLast a older o =
    (dto : Dto) × (o ≡ some dto) × (dto.status ≡ a.status) × IsTracked (a ∷ older) dto

-- Calculated from occurrence to occurrence, the fields of the last one tell its history: how many
-- occurrences came after the last acknowledged and after the last resolved one; when the run of firing
-- began that it belongs to, if it fires; and when the first occurrence after the last resolved one was
-- received, if that one fires, for occurrences that say when they were received.
pub track-IsTracked :
    (a : Dto) (older : List Dto)
    → IsReceived (a ∷ older)
    → (dto : Dto) × (track (a ∷ older) ≡ some dto)
      × (dto.status ≡ a.status)
      × IsTracked (a ∷ older) dto
unfolding track tracked
track-IsTracked a [] h = (tracked a no_alert, refl, refl, first_tracked a)
track-IsTracked a (b ∷ older) h = joined (track-IsTracked b older h.1)
  where
    joined : IsLast b older (track (b ∷ older)) → IsLast a (b ∷ older) (track (a ∷ b ∷ older))
    joined (previous, e, status, is) = (
      tracked a (one previous),
      ap (λ x. some (tracked a (previous_of x))) e,
      refl,
      later_tracked a b previous older h.1 status is,
    )
