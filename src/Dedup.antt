-- ===== src/Dedup.antt =====
-- src/services/alert_deduplicator/alert_deduplicator.py: how the rules are applied to an alert. An
-- alert is the dict of its attributes.
pub mod Rules
pub mod Ignored
pub mod Verdict
pub mod Events
pub mod Provisioned
pub mod Defaults
pub mod Tests
use keep_api_gateway.Prelude.{
  ℕ, Result, ok, err, ◌>>=◌, String, ◌==◌, Bool, true, false, Option, none, some, List, [], ◌∷◌,
  ◌++◌, ◌&&◌, ◌||◌, split, if◌then◌else◌,
}
use keep_api_gateway.Prelude.Dict
use keep_api_gateway.Prelude.Dict.{Dict}
use keep_api_gateway.Prelude.Json.{Json, bool, str, obj, Fields, get_field, put_field, remove_key}

-- What the code reads and writes of a rule.
pub record Rule : Type 0 where
  pub id : String
  pub name : String
  pub description : Option String
  pub provider_id : Option String
  pub provider_type : String
  pub created_by : Option String
  pub last_updated_by : Option String
  pub enabled : Bool
  pub fingerprint_fields : List String
  pub full_deduplication : Bool
  pub ignore_fields : List String
  pub is_provisioned : Bool

-- `deduplication_type`
pub data Kind : Type 0 where
  full partial no_duplicate : Kind

-- A row that `create_deduplication_event` adds.
pub record Event : Type 0 where
  pub rule_id : String
  pub kind : Kind

-- The exceptions that leave the functions; `http` carries the status code of an `HTTPException`.
pub data Raised : Type 0 where
  attribute_error key_error type_error multiple_results : Raised
  http : ℕ → Raised

-- `for part in field_parts[1:-1]: d = d[part]`, then `del d[field_parts[-1]]`; the result is the
-- innermost dict. Only dicts take a text as their key.
unfoldable pub delete_path : List String → Json → Result Raised Json
unfolding get_field
delete_path (part ∷ []) (obj fs) = elim (get_field fs part) [
  | none ↦ err key_error
  | some v ↦ ok (obj (remove_key fs part))
]
delete_path (part ∷ next ∷ parts) (obj fs) = elim (get_field fs part) [
  | none ↦ err key_error
  | some v ↦ delete_path (next ∷ parts) v
]
delete_path parts j = err type_error

abbrev pub delete_inside : Option Json → List String → Result Raised Json
delete_inside none parts = err attribute_error
delete_inside (some d) parts = delete_path parts d

-- `_remove_field`, given the parts of the field; a plain attribute that is missing is left missing.
abbrev pub remove_parts : List String → Fields → Result Raised Fields
remove_parts [] alert = ok alert
remove_parts (field ∷ []) alert = ok (remove_key alert field)
remove_parts (name ∷ part ∷ parts) alert = do
  d ← delete_inside (get_field alert name) (part ∷ parts)
  ok (put_field alert name d)

unfoldable pub remove_field : String → Fields → Result Raised Fields
remove_field field alert = remove_parts (split b'.' field) alert

unfoldable pub remove_fields : List String → Fields → Result Raised Fields
remove_fields [] alert = ok alert
remove_fields (field ∷ fields) alert = do rest ← remove_field field alert; remove_fields fields rest

-- `hashes.get(alert.fingerprint)`, where the empty text counts as nothing
abbrev pub nonempty : Option String → Option String
nonempty none = none
nonempty (some t) = if t == "" then none else some t

abbrev pub hash_of : Dict String → Option Json → Option String
hash_of hashes (some (str fingerprint)) = nonempty (Dict.get hashes fingerprint)
hash_of hashes _ = none

-- `last_alert_fingerprint_to_hash or get_last_alert_hashes_by_fingerprints(...)`
abbrev pub known_hashes : Option (Dict String) → Dict String → Dict String
known_hashes (some (h ∷ hs)) stored = h ∷ hs
known_hashes _ stored = stored

abbrev pub mark : Option String → String → Fields → Fields
mark none hash alert = alert
mark (some last) hash alert =
    if last == hash
    then put_field alert "is_full_duplicate" (bool true)
    else put_field alert "is_partial_duplicate" (bool true)

abbrev pub is_true : Option Json → Bool
is_true (some (bool b)) = b
is_true _ = false

abbrev pub kind_of : Fields → Kind
kind_of alert =
    if is_true (get_field alert "is_full_duplicate")
    then full
    else if is_true (get_field alert "is_partial_duplicate")
    then partial
    else no_duplicate

abbrev pub is_duplicate : Kind → Bool
is_duplicate no_duplicate = false
is_duplicate _ = true

-- What follows the rule `id` in the loop: `rest` is the alert and the events of the later rules. The
-- ids of rules are UUIDs, for which an event is always written.
abbrev pub after_rule :
    (distribution : Bool)
    → String
    → Fields
    → Result Raised (Fields × List Event)
    → Result Raised (Fields × List Event)
after_rule false id alert rest = rest
after_rule true id alert rest =
    let event : Event = record { rule_id = id; kind = kind_of alert } in
    if is_duplicate (kind_of alert)
    then ok (alert, event ∷ [])
    else do r ← rest; ok (r.0, event ∷ r.1)

-- What the rules need from outside: SHA-256 of the sorted JSON text of a dict, the hash table given by
-- the caller, and the hashes that the database holds for the alert's fingerprint.
module _ (digest : Fields → String) (given : Option (Dict String)) (stored : Dict String) where
  -- The body of `_apply_deduplication_rule`, once the ignored fields are removed.
  abbrev pub apply_hash : Fields → String → Fields
  apply_hash alert hash =
      let hashed = put_field alert "alert_hash" (str hash) in
      mark (hash_of (known_hashes given stored) (get_field hashed "fingerprint")) hash hashed

  -- `_apply_deduplication_rule`
  unfoldable pub apply_rule : Rule → Fields → Result Raised Fields
  apply_rule rule alert = do
    copy ← remove_fields rule.ignore_fields alert
    ok (apply_hash alert (digest copy))

  -- `apply_deduplication` on the rules it has found; `distribution` is
  -- `DEDUPLICATION_DISTRIBUTION_ENABLED`.
  unfoldable pub apply_rules :
      (distribution : Bool) → List Rule → Fields → Result Raised (Fields × List Event)
  apply_rules distribution [] alert = ok (alert, [])
  apply_rules distribution (rule ∷ rules) alert = do
    marked ← apply_rule rule alert
    after_rule distribution rule.id marked (apply_rules distribution rules marked)
