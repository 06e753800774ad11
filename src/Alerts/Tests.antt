-- ===== src/Alerts/Tests.antt =====
-- Rows, enrichments and alerts, and the theorems at them.
use keep_api_gateway.Prelude.{
  ℕ, zero, suc, String, true, false, Option, none, some, List, [], ◌∷◌, ◌≡◌, refl, ok, ◌==◌, ◌&&◌,
  arith,
}
use keep_api_gateway.Prelude.Dict
use keep_api_gateway.Prelude.Dict.{Dict}
use keep_api_gateway.Prelude.Json.{Json}
use keep_api_gateway.Prelude.Json.Json.{null, bool, str}
use keep_api_gateway.Alerts.{LastAlert, defaults}
use keep_api_gateway.Alerts.Normalize.{
  is_column, set_default, from_dismissed, from_dismiss_mode, from_dismiss_until, translate_by,
  translate, unknown_keys, known_part, normalize_enrichments,
}
use keep_api_gateway.Alerts.Settled.{normalize_enrichments-again}
use keep_api_gateway.Alerts.Enrich.{
  is_blank, write_column, apply_enrichments, Call, Store, find_row, update_row, write,
  enrich_entity, batch_rows, batch_audits, batch_enrich, apply_dispose_on_new_alert,
  enrich_entity_impl, enrich_each,
}
use keep_api_gateway.Alerts.Written.{is_dict}
use keep_api_gateway.Alerts.Stored.{IsEnriched, map_row, enrich_entity-IsEnriched}
use keep_api_gateway.Alerts.Batch.{enrich_each-batch_enrich, enrich_entity_impl-sent}
use keep_api_gateway.Alerts.Lifecycle.{
  Alert, Answer, committed, integrity_error, apply_dismiss_lifecycle, is_tracking, write_tracking,
  take_over, new_row, upsert, upsert_all, set_last_alert,
}
use keep_api_gateway.Alerts.Arrivals.{Arrival, alerts_of}
use keep_api_gateway.Alerts.Newest.{IsNewest, upsert_all-IsNewest}
use keep_api_gateway.Alerts.Dismissal.{dismissal_of, upsert_all-dismissal_of}
use keep_api_gateway.Alerts.Attempts.{IsSettled, set_last_alert-IsSettled}
use keep_api_gateway.Alerts.Counters.{Dto, track}
use keep_api_gateway.Alerts.Histories.{IsTracked, track-IsTracked}

program : Unit {0}
unfolding normalize_enrichments translate translate_by from_dismissed from_dismiss_mode
    from_dismiss_until is_column set_default unknown_keys known_part is_blank write_column
    apply_enrichments find_row update_row write enrich_entity batch_rows batch_audits batch_enrich
    apply_dispose_on_new_alert enrich_entity_impl enrich_each is_dict apply_dismiss_lifecycle
    is_tracking write_tracking take_over new_row upsert upsert_all alerts_of track Dict.get Dict.put
    Dict.remove
program = tt

-- A dismissal by an earlier client, and one by a newer client.
abbrev dismissal : Dict Json
dismissal = ("dismissed", bool true) ∷ ("note", str " ") ∷ []

abbrev typed : Dict Json
typed = ("note", str " ") ∷ ("status", str "suppressed") ∷ ("dismiss_mode", str "permanent") ∷ []

abbrev row : LastAlert
row = record {
  tenant_id = "acme";
  fingerprint = "disk";
  alert_id = "a1";
  timestamp = 10;
  first_timestamp = 10;
  alert_hash = none;
  columns = Dict.put defaults "note" (str "looking");
}

abbrev store : Store
store = record { last_alerts = row ∷ []; audits = [] }

abbrev dismissing : Call
dismissing = record {
  tenant_id = "acme";
  action_type = "alert was dismissed";
  action_callee = "joe";
  action_description = "dismissed by joe";
  force = false;
  audit_enabled = true;
  strict = true;
}

normalize_enrichments-again_example : normalize_enrichments false typed ≡ ok typed
normalize_enrichments-again_example =
    normalize_enrichments-again true false dismissal typed (unfold program in refl)
      (unfold program in refl)

enrich_entity-IsEnriched_example :
    (d : Dict Json) × (normalize_enrichments true dismissal ≡ ok d)
    × IsEnriched dismissing d
        (find_row "acme" "disk" (row ∷ []))
        (find_row "acme" "disk" (write dismissing typed "disk" store).last_alerts)
    × ((u g : String)
        → ("acme" == u && "disk" == g) ≡ false
        → find_row u g (write dismissing typed "disk" store).last_alerts ≡ find_row u g (row ∷ []))
enrich_entity-IsEnriched_example =
    enrich_entity-IsEnriched dismissing dismissal "disk" store (write dismissing typed "disk" store)
      (unfold program in refl) (unfold program in refl)

enrich_each-batch_enrich_example :
    enrich_each dismissing true dismissal ("disk" ∷ "cpu" ∷ []) store
    ≡ batch_enrich dismissing
        (apply_dispose_on_new_alert dismissal true)
        ("disk" ∷ "cpu" ∷ [])
        store
enrich_each-batch_enrich_example =
    enrich_each-batch_enrich dismissing true dismissal "disk" ("cpu" ∷ []) store refl
      (unfold program in refl)

abbrev none_sent : Option (Dict Json)
none_sent = none

enrich_entity_impl-sent_example :
    (d : Dict Json) × (some (("status", str "resolved") ∷ ("status_disposable", bool true) ∷ [])
      ≡ some d)
    × (none_sent ≡ none)
    × (find_row "acme" "disk"
          (write dismissing
            (("status", str "resolved") ∷ ("status_disposable", bool true) ∷ [])
            "disk"
            store).last_alerts
        ≡ map_row (apply_enrichments false d) (find_row "acme" "disk" (row ∷ [])))
enrich_entity_impl-sent_example =
    enrich_entity_impl-sent dismissing true true false (("status", str "resolved") ∷ []) "disk"
      store
      (write dismissing (("status", str "resolved") ∷ ("status_disposable", bool true) ∷ []) "disk"
        store)
      (record {
        event = some (("status", str "resolved") ∷ ("status_disposable", bool true) ∷ []);
        elastic = none;
      })
      (unfold program in refl) (unfold program in refl)

abbrev occurrence : String → String → ℕ → String → Alert
occurrence id fingerprint timestamp status = record {
  id = id;
  fingerprint = fingerprint;
  timestamp = timestamp;
  alert_hash = none;
  status = status;
}

abbrev arrived : List Arrival
arrived =
    (occurrence "a2" "disk" 20 "firing", some (("firing_counter", Json.number "2") ∷ []))
    ∷ (occurrence "b1" "cpu" 5 "firing", none)
    ∷ (occurrence "a3" "disk" 30 "resolved", none)
    ∷ []

upsert_all-IsNewest_example :
    IsNewest
      (alerts_of "disk" arrived)
      (find_row "disk_owner" "disk" (upsert_all "disk_owner" arrived (row ∷ [])))
upsert_all-IsNewest_example =
    upsert_all-IsNewest "disk_owner" "disk" arrived (row ∷ []) (unfold program in refl)

upsert_all-dismissal_of_example :
    (later : LastAlert) × (find_row "acme" "disk" (upsert_all "acme" arrived (row ∷ []))
      ≡ some later)
    × (dismissal_of later ≡ (str "resolved", null, null))
unfolding Dict.get Dict.put
upsert_all-dismissal_of_example =
    upsert_all-dismissal_of "acme" "disk" arrived
      ((occurrence "a3" "disk" 30 "resolved", none) ∷ [])
      (occurrence "a2" "disk" 20 "firing", some (("firing_counter", Json.number "2") ∷ []))
      (row ∷ []) row (unfold program in refl) (unfold program in refl)
      (omega arith, (omega arith, tt))

-- An integrity error, then a commit.
abbrev answer : ℕ → Answer
answer (suc zero) = integrity_error
answer n = committed

-- The row was not there at the first attempt, and another process has inserted it by the second.
abbrev tables : ℕ → List LastAlert
tables (suc zero) = []
tables n = row ∷ []

set_last_alert-IsSettled_example :
    IsSettled answer
      (λ n. upsert "acme" (occurrence "a2" "disk" 20 "firing") none (tables n))
      1
      3
      (set_last_alert answer 3 "acme" (occurrence "a2" "disk" 20 "firing") none tables)
set_last_alert-IsSettled_example =
    set_last_alert-IsSettled answer 2 "acme" (occurrence "a2" "disk" 20 "firing") none tables

abbrev seen : String → String → Dto
seen status last_received = record {
  status = status;
  last_received = last_received;
  firing_start_time = none;
  firing_start_time_since_last_resolved = none;
  firing_counter = 0;
  unresolved_counter = 0;
}

track-IsTracked_example :
    (dto : Dto) × (track
        (seen "firing" "12:02" ∷ seen "pending" "12:01" ∷ seen "resolved" "12:00" ∷ [])
      ≡ some dto)
    × (dto.status ≡ "firing")
    × IsTracked (seen "firing" "12:02" ∷ seen "pending" "12:01" ∷ seen "resolved" "12:00" ∷ []) dto
track-IsTracked_example =
    track-IsTracked (seen "firing" "12:02") (seen "pending" "12:01" ∷ seen "resolved" "12:00" ∷ [])
      (refl, (refl, (refl, tt)))
