-- ===== src/Dedup/Rules.antt =====
-- src/services/alert_deduplicator/alert_deduplicator.py: which rules hold for an alert, and the
-- operations on the table of rules in src/repositories/db.py. Ids are compared as texts: the parse of
-- an id as a UUID is left out.
use keep_api_gateway.Prelude.{
  String, ◌⧺◌, ◌==◌, Bool, true, false, Option, none, some, List, [], ◌∷◌, ◌++◌, ◌&&◌, ◌||◌, lower,
  is_infix, replace_after, if◌then◌else◌, Result, ok, err, ◌>>=◌,
}
use keep_api_gateway.Dedup.{Rule, Raised, http, multiple_results}

-- A row of the table `AlertDeduplicationRule`.
pub record Row : Type 0 where
  pub tenant_id : String
  pub rule : Rule

-- The f-string of a value that may be `None`.
abbrev pub shown : Option String → String
shown none = "None"
shown (some t) = t

abbrev pub is_empty : Option String → Bool
is_empty none = true
is_empty (some t) = t == ""

-- `provider_type or "keep"`
abbrev pub type_or_keep : Option String → String
type_or_keep none = "keep"
type_or_keep (some t) = if t == "" then "keep" else t

abbrev pub same : Option String → Option String → Bool
same none none = true
same (some s) (some t) = s == t
same _ _ = false

abbrev pub lower_of : Option String → String
lower_of none = ""
lower_of (some t) = lower t

-- `_generate_uuid`, given `uuid5` in the namespace of the program.
unfoldable pub generate_uuid :
    (uuid5 : String → String) → (provider_id provider_type : Option String) → String
generate_uuid uuid5 id kind =
    let named = if is_empty id && (lower_of kind == "keep") then none else kind in
    uuid5 (shown id ⧺ ("_" ⧺ shown named))

-- `_get_default_full_deduplication_rule`, without its statistics.
unfoldable pub default_rule :
    (uuid5 : String → String) → (provider_id provider_type : Option String) → Rule
unfolding generate_uuid
default_rule uuid5 id kind = record {
  id = generate_uuid uuid5 id kind;
  name = type_or_keep kind ⧺ " default deduplication rule";
  description = some (type_or_keep kind ⧺ " default deduplication rule");
  provider_id = id;
  provider_type = type_or_keep kind;
  created_by = none;
  last_updated_by = none;
  enabled = true;
  fingerprint_fields = [];
  full_deduplication = true;
  ignore_fields = "last_received" ∷ [];
  is_provisioned = false;
}

abbrev pub is_custom : String → Option String → String → Row → Bool
is_custom tenant_id id kind r =
    (r.tenant_id == tenant_id) && (same r.rule.provider_id id && (r.rule.provider_type == kind))

abbrev pub filter {ℓ} : {A : Type ℓ} → (A → Bool) → List A → List A
filter p [] = []
filter p (x ∷ xs) = if p x then x ∷ filter p xs else filter p xs

-- `one_or_none`
abbrev pub one_or_none : List Row → Result Raised (Option Rule)
one_or_none [] = ok none
one_or_none (r ∷ []) = ok (some r.rule)
one_or_none _ = err multiple_results

-- `get_custom_deduplication_rule`
unfoldable pub get_custom : String → Option String → String → List Row → Result Raised (Option Rule)
get_custom tenant_id id kind rows = one_or_none (filter (is_custom tenant_id id kind) rows)

abbrev pub rules_of : Rule → Option Rule → List Rule
rules_of default none = default ∷ []
rules_of default (some rule) =
    if rule.full_deduplication
    then rule ∷ []
    else record rule { ignore_fields = default.ignore_fields } ∷ []

-- `get_deduplication_rules`; `custom` is `CUSTOM_DEDUPLICATION_DISTRIBUTION_ENABLED`
unfoldable pub get_rules :
    (uuid5 : String → String) (custom : Bool)
    → String
    → (provider_id provider_type : Option String) → List Row
    → Result Raised (List Rule)
unfolding get_custom default_rule
get_rules uuid5 custom tenant_id id kind rows = do
  rule ← if custom then get_custom tenant_id id (type_or_keep kind) rows else ok none
  ok (rules_of (default_rule uuid5 id (some (type_or_keep kind))) rule)

-- `DeduplicationRuleRequestDto`
pub record Request : Type 0 where
  pub name : String
  pub description : Option String
  pub provider_type : String
  pub provider_id : Option String
  pub fingerprint_fields : List String
  pub full_deduplication : Bool
  pub ignore_fields : Option (List String)

-- A provider that is installed or linked.
pub record Provider : Type 0 where
  pub kind : String
  pub id : Option String

abbrev pub fields_or_empty : Option (List String) → List String
fields_or_empty none = []
fields_or_empty (some fs) = fs

abbrev pub provider_key : Request → String
provider_key q = q.provider_type ⧺ ("_" ⧺ shown q.provider_id)

abbrev pub is_provider : String → List Provider → Bool
is_provider key [] = false
is_provider key (p ∷ ps) = key == (p.kind ⧺ ("_" ⧺ shown p.id)) || is_provider key ps

abbrev pub new_row :
    (new_id tenant_id created_by : String) (provider_id : Option String) → Request → Row
new_row new_id tenant_id created_by id q = record {
  tenant_id = tenant_id;
  rule = record {
    id = new_id;
    name = q.name;
    description = q.description;
    provider_id = id;
    provider_type = q.provider_type;
    created_by = some created_by;
    last_updated_by = some created_by;
    enabled = true;
    fingerprint_fields = q.fingerprint_fields;
    full_deduplication = q.full_deduplication;
    ignore_fields = fields_or_empty q.ignore_fields;
    is_provisioned = false;
  };
}

abbrev pub insert_for :
    (key new_id tenant_id created_by : String) (provider_id : Option String)
    → List Provider
    → Request
    → List Row
    → Result Raised (List Row)
insert_for key new_id tenant_id created_by id providers q rows =
    if is_provider key providers
    then ok (rows ++ new_row new_id tenant_id created_by id q ∷ [])
    else err (http 404)

-- `create_deduplication_rule`: the table afterwards.
unfoldable pub create :
    (new_id tenant_id created_by : String)
    → List Provider
    → Request
    → List Row
    → Result Raised (List Row)
create new_id tenant_id created_by providers q rows =
    if is_infix "null" (provider_key q)
    then insert_for (replace_after 0 3 "null" "None" (provider_key q)) new_id tenant_id created_by
        none providers q rows
    else insert_for (provider_key q) new_id tenant_id created_by q.provider_id providers q rows

abbrev pub is_row : String → String → Row → Bool
is_row tenant_id rule_id r = (r.tenant_id == tenant_id) && (r.rule.id == rule_id)

-- `get_deduplication_rule_by_id`
unfoldable pub find : String → String → List Row → Option Rule
find tenant_id rule_id [] = none
find tenant_id rule_id (r ∷ rows) =
    if is_row tenant_id rule_id r then some r.rule else find tenant_id rule_id rows

-- The assignments of `update_deduplication_rule` of the database, to the row it selects.
unfoldable pub update_row : (tenant_id rule_id updated_by : String) → Request → List Row → List Row
update_row tenant_id rule_id updated_by q [] = []
update_row tenant_id rule_id updated_by q (r ∷ rows) =
    let rest = update_row tenant_id rule_id updated_by q rows in
    if is_row tenant_id rule_id r
    then record r {
      rule = record r.rule {
        name = q.name;
        description = q.description;
        provider_id = q.provider_id;
        provider_type = q.provider_type;
        last_updated_by = some updated_by;
        enabled = true;
        fingerprint_fields = q.fingerprint_fields;
        full_deduplication = q.full_deduplication;
        ignore_fields = fields_or_empty q.ignore_fields;
      };
    }
      ∷ rows
    else r ∷ rest

unfoldable pub delete_row : (tenant_id rule_id : String) → List Row → List Row
delete_row tenant_id rule_id [] = []
delete_row tenant_id rule_id (r ∷ rows) =
    let rest = delete_row tenant_id rule_id rows in
    if is_row tenant_id rule_id r then rows else r ∷ rest

-- The two guards that `update` and `delete` share.
abbrev pub guarded : Option Rule → List Row → Result Raised (List Row)
guarded none rows = err (http 404)
guarded (some rule) rows = if rule.is_provisioned then err (http 409) else ok rows

-- `update_deduplication_rule`
unfoldable pub update :
    (uuid5 : String → String) (new_id tenant_id rule_id updated_by : String)
    → List Provider
    → Request
    → List Row
    → Result Raised (List Row)
unfolding generate_uuid create find update_row
update uuid5 new_id tenant_id rule_id updated_by providers q rows =
    if rule_id == generate_uuid uuid5 q.provider_id (some q.provider_type)
    then create new_id tenant_id updated_by providers q rows
    else guarded (find tenant_id rule_id rows) (update_row tenant_id rule_id updated_by q rows)

-- `delete_deduplication_rule`
unfoldable pub delete : (tenant_id rule_id : String) → List Row → Result Raised (List Row)
unfolding find delete_row
delete tenant_id rule_id rows =
    guarded (find tenant_id rule_id rows) (delete_row tenant_id rule_id rows)
