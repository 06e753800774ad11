-- ===== src/Dedup/Tests.antt =====
-- Alerts, rules and a table of rules, and the theorems at them.
use keep_api_gateway.Prelude.{
  String, ◌⧺◌, true, false, Option, none, some, List, [], ◌∷◌, ◌≡◌, refl, ok, split, is_infix,
  replace_after,
}
use keep_api_gateway.Prelude.Dict
use keep_api_gateway.Prelude.Dict.{Dict}
use keep_api_gateway.Prelude.Json.{Json, str, Fields, field, end, get_field, put_field, remove_key}
use keep_api_gateway.Dedup.{
  Rule, no_duplicate, kind_of, delete_path, remove_field, remove_fields, apply_rule, apply_rules,
  hash_of, known_hashes,
}
use keep_api_gateway.Dedup.Rules.{
  Row, Request, Provider, filter, get_custom, default_rule, generate_uuid, get_rules, create,
  update, delete, find, update_row, delete_row,
}
use keep_api_gateway.Dedup.Verdict.{verdict, apply_rule-verdict}
use keep_api_gateway.Dedup.Ignored.{IsFull, apply_rule-redelivered}
use keep_api_gateway.Dedup.Events.{Trail, apply_rules-Trail}
use keep_api_gateway.Dedup.Provisioned.{
  is_kept, updates, deletes, creates, Call, handle, handle_all, handle_all-kept,
}

-- A stand-in for the hash: the message and the time.
abbrev shown_text : Option Json → String
shown_text (some (str t)) = t
shown_text _ = "?"

abbrev digest : Fields → String
digest fs = shown_text (get_field fs "message") ⧺ shown_text (get_field fs "last_received")

abbrev uuid5 : String → String
uuid5 t = t

abbrev alert : Fields
alert =
    field "fingerprint" (str "f1")
      (field "message" (str "disk full") (field "last_received" (str "10:00") end))

abbrev rule : Rule
rule = record {
  id = "8f14e45f-ceea-467f-a0e6-0123456789ab";
  name = "disks";
  description = none;
  provider_id = some "p1";
  provider_type = "nagios";
  created_by = none;
  last_updated_by = none;
  enabled = true;
  fingerprint_fields = [];
  full_deduplication = true;
  ignore_fields = "last_received" ∷ [];
  is_provisioned = false;
}

abbrev rows : List Row
rows =
    record { tenant_id = "acme"; rule = rule }
    ∷ record { tenant_id = "acme"; rule = record rule { id = "r2"; is_provisioned = true } }
    ∷ []

abbrev request : Request
request = record {
  name = "disks";
  description = none;
  provider_type = "nagios";
  provider_id = some "null";
  fingerprint_fields = [];
  full_deduplication = false;
  ignore_fields = none;
}

abbrev providers : List Provider
providers = record { kind = "nagios"; id = none } ∷ []

dedup : Unit {0}
unfolding get_field put_field remove_key split delete_path remove_field remove_fields apply_rule
    apply_rules Dict.get get_custom default_rule generate_uuid get_rules create update delete find
    update_row delete_row is_infix replace_after handle handle_all
dedup = tt

abbrev copy : Fields
copy = field "fingerprint" (str "f1") (field "message" (str "disk full") end)

abbrev hashes : Dict String
hashes = ("f1", "disk full?") ∷ []

abbrev marked : Fields
marked = field "fingerprint" (str "f1") (
    field "message" (str "disk full")
      (field "last_received" (str "10:00") (field "alert_hash" (str "disk full?") end)))

apply_rule-verdict_example :
    (final : Fields) × (apply_rule digest none hashes rule alert ≡ ok final)
    × (kind_of final
        ≡ verdict
            (hash_of (known_hashes none hashes) (get_field alert "fingerprint"))
            (digest copy))
    × (get_field final "alert_hash" ≡ some (str (digest copy)))
apply_rule-verdict_example =
    apply_rule-verdict digest none hashes rule alert copy (unfold dedup in refl)
      (unfold dedup in refl)

apply_rule-redelivered_example :
    IsFull (apply_rule digest none hashes rule (put_field alert "last_received" (str "11:00")))
apply_rule-redelivered_example =
    apply_rule-redelivered digest none [] none hashes rule alert marked "last_received"
      (str "11:00") (unfold dedup in (refl, tt)) refl (unfold dedup in refl) (unfold dedup in refl)
      (unfold dedup in refl) (unfold dedup in refl)

apply_rules-Trail_example :
    Trail
      (rule ∷ [])
      (record { rule_id = "8f14e45f-ceea-467f-a0e6-0123456789ab"; kind = no_duplicate } ∷ [])
      (kind_of marked)
apply_rules-Trail_example =
    apply_rules-Trail digest none [] (rule ∷ []) alert marked
      (record { rule_id = "8f14e45f-ceea-467f-a0e6-0123456789ab"; kind = no_duplicate } ∷ [])
      (unfold dedup in refl) (unfold dedup in refl)

abbrev calls : List Call
calls =
    deletes "r2"
    ∷ creates "r3" "joe" request
    ∷ updates "r4" "8f14e45f-ceea-467f-a0e6-0123456789ab" "joe" request
    ∷ []

-- The calls do change the table.
calls_change :
    (r : Row) × ((rest : List Row) × (handle_all uuid5 providers "acme" calls rows ≡ r ∷ rest))
unfolding dedup
calls_change = (_, (_, refl))

handle_all-kept_example :
    filter (is_kept "acme") (handle_all uuid5 providers "acme" calls rows)
    ≡ filter (is_kept "acme") rows
handle_all-kept_example = handle_all-kept "acme" uuid5 providers calls rows
