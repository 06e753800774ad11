-- ===== src/Alerts/Normalize.antt =====
-- `normalize_enrichments` of src/repositories/db.py: the keys of earlier clients become columns, and
-- the keys that are no columns are refused or dropped.
use keep_api_gateway.Prelude.{
  String, Bool, true, false, Option, none, some, List, [], ◌∷◌, contains, ◌≡◌, refl, if◌then◌else◌,
  Result, ok, err,
}
use keep_api_gateway.Prelude.Dict
use keep_api_gateway.Prelude.Dict.{Dict}
use keep_api_gateway.Prelude.Json.{Json}
use keep_api_gateway.Prelude.Json.Json.{null, str}
use keep_api_gateway.Alerts.{enrichable, or_null, truthy}

-- The ValueError, with the keys that are no columns.
pub data Refusal : Type 0 where
  value_error : List String → Refusal

abbrev pub is_some : Option Json → Bool
is_some none = false
is_some (some v) = true

-- `key in d`
abbrev pub has_key : Dict Json → String → Bool
has_key d key = is_some (Dict.get d key)

abbrev pub is_null : Json → Bool
is_null null = true
is_null _ = false

-- `d.setdefault(key, v)`
unfoldable pub set_default : Dict Json → String → Json → Dict Json
set_default d key v = if has_key d key then d else Dict.put d key v

abbrev pub suppress : Dict Json → Json → Dict Json
suppress d ts =
    if truthy ts
    then Dict.put (Dict.put d "dismiss_mode" (str "dismiss_until")) "dismissed_until" ts
    else set_default d "dismiss_mode" (str "permanent")

abbrev pub revert : Dict Json → Dict Json
revert d = Dict.put (Dict.put d "dismiss_mode" null) "dismissed_until" null

-- The timestamp that may come with `dismissed`, under either key.
abbrev pub timestamp_of : (given : Json) → Dict Json → Json
timestamp_of given d = if is_null given then or_null (Dict.get d "dismiss_until") else given

-- `dismissed` with its value, on the other keys.
unfoldable pub from_dismissed : (dismissed : Json) → Dict Json → Dict Json
from_dismissed dismissed d =
    let given = or_null (Dict.get d "dismissed_until") in
    let ts = timestamp_of given d in
    let left = if is_null given then Dict.remove d "dismiss_until" else d in
    if truthy dismissed
    then suppress (set_default left "status" (str "suppressed")) ts
    else revert (set_default left "status" null)

unfoldable pub from_dismiss_until : (ts : Json) → Dict Json → Dict Json
from_dismiss_until ts d =
    if truthy ts
    then Dict.put
        (Dict.put (set_default d "status" (str "suppressed")) "dismiss_mode" (str "dismiss_until"))
        "dismissed_until" ts
    else d

unfoldable pub from_dismiss_mode : (mode : Json) → Dict Json → Dict Json
from_dismiss_mode mode d =
    if truthy mode
    then set_default d "status" (str "suppressed")
    else set_default (set_default d "status" null) "dismissed_until" null

-- The three branches, by what is there of the keys "dismissed", "dismiss_until" and "dismiss_mode".
unfoldable pub translate_by : (dismissed until mode : Option Json) → Dict Json → Dict Json
translate_by (some dismissed) until mode d = from_dismissed dismissed (Dict.remove d "dismissed")
translate_by none (some ts) mode d = from_dismiss_until ts (Dict.remove d "dismiss_until")
translate_by none none (some m) d = from_dismiss_mode m d
translate_by none none none d = d

unfoldable pub translate : Dict Json → Dict Json
translate d =
    translate_by (Dict.get d "dismissed") (Dict.get d "dismiss_until") (Dict.get d "dismiss_mode") d

unfoldable pub is_column : String → Bool
is_column key = contains enrichable key

unfoldable pub unknown_keys : Dict Json → List String
unknown_keys [] = []
unknown_keys ((key, v) ∷ d) = if is_column key then unknown_keys d else key ∷ unknown_keys d

unfoldable pub known_part : Dict Json → Dict Json
known_part [] = []
known_part ((key, v) ∷ d) =
    let rest = known_part d in if is_column key then (key, v) ∷ rest else rest

abbrev pub checked : Bool → Dict Json → List String → Result Refusal (Dict Json)
checked strict d [] = ok d
checked strict d (key ∷ keys) = if strict then err (value_error (key ∷ keys)) else ok (known_part d)

unfoldable pub normalize_enrichments : Bool → Dict Json → Result Refusal (Dict Json)
normalize_enrichments strict enrichments =
    let d = translate enrichments in checked strict d (unknown_keys d)

legacy_runs :
    normalize_enrichments true (("dismissed", Json.bool true) ∷ ("dismiss_until", str "t") ∷ [])
    ≡ ok (
        ("status", str "suppressed")
        ∷ ("dismiss_mode", str "dismiss_until")
        ∷ ("dismissed_until", str "t")
        ∷ [])
unfolding normalize_enrichments translate translate_by from_dismissed set_default unknown_keys
    is_column Dict.get Dict.put Dict.remove
legacy_runs = refl
