-- ===== src/Alerts/Dicts.antt =====
-- Normalized enrichments are a dict again: no key comes twice.
use keep_api_gateway.Prelude.{
  String, Bool, true, false, not, ◌&&◌, ◌||◌, Option, none, some, [], ◌∷◌, ◌==◌, ◌≡◌, sym, refl,
  subst, ap, arith, eq_iff, if◌then◌else◌, ok,
}
use keep_api_gateway.Prelude.Dict
use keep_api_gateway.Prelude.Dict.{Dict, get-put, get-remove}
use keep_api_gateway.Prelude.Json.{Json}
use keep_api_gateway.Prelude.Json.Json.{null, str}
use keep_api_gateway.Alerts.{or_null, truthy}
use keep_api_gateway.Alerts.Normalize.{
  is_some, has_key, is_null, timestamp_of, set_default, suppress, revert, from_dismissed,
  from_dismiss_until, from_dismiss_mode, translate_by, translate, known_part, normalize_enrichments,
}
use keep_api_gateway.Alerts.Known.{get-known_part, normalize_enrichments-known_part}
use keep_api_gateway.Alerts.Written.{is_dict}

has_key-put :
    (d : Dict Json) (key : String) (v : Json) (j : String)
    → has_key (Dict.put d key v) j ≡ (key == j || has_key d j)
has_key-put d key v j = by_same (key == j) (get-put key j v d)
  where
    by_same :
        (same : Bool)
        → Dict.get (Dict.put d key v) j ≡ (if same then some v else Dict.get d j)
        → has_key (Dict.put d key v) j ≡ (same || has_key d j)
    by_same true e = ap is_some e
    by_same false e = ap is_some e

has_key-remove :
    (d : Dict Json) (key j : String)
    → has_key (Dict.remove d key) j ≡ (not (key == j) && has_key d j)
has_key-remove d key j = by_same (key == j) (get-remove key j d)
  where
    by_same :
        (same : Bool)
        → Dict.get (Dict.remove d key) j ≡ (if same then none else Dict.get d j)
        → has_key (Dict.remove d key) j ≡ (not same && has_key d j)
    by_same true e = ap is_some e
    by_same false e = ap is_some e

pub put-is_dict :
    (d : Dict Json) (key : String) (v : Json) → is_dict d ≡ true → is_dict (Dict.put d key v) ≡ true
unfolding is_dict Dict.put Dict.get
put-is_dict [] key v h = refl
put-is_dict ((k, w) ∷ d) key v h =
    ground (arith, h, eq_iff k key, eq_iff key k, has_key-put d key v k, put-is_dict d key v)

remove-is_dict :
    (d : Dict Json) (key : String) → is_dict d ≡ true → is_dict (Dict.remove d key) ≡ true
unfolding is_dict Dict.remove
remove-is_dict [] key h = refl
remove-is_dict ((k, w) ∷ d) key h =
    ground (arith, h, eq_iff k key, has_key-remove d key k, remove-is_dict d key)

known_part-is_dict : (d : Dict Json) → is_dict d ≡ true → is_dict (known_part d) ≡ true
unfolding is_dict known_part
known_part-is_dict [] h = refl
known_part-is_dict ((k, w) ∷ d) h = ground (arith, h, get-known_part d k, known_part-is_dict d)

set_default-is_dict :
    (d : Dict Json) (key : String) (v : Json)
    → is_dict d ≡ true
    → is_dict (set_default d key v) ≡ true
unfolding set_default
set_default-is_dict d key v h = ground (arith, h, put-is_dict d key v)

if-is_dict :
    (b : Bool) (x y : Dict Json)
    → is_dict x ≡ true
    → is_dict y ≡ true
    → is_dict (if b then x else y) ≡ true
if-is_dict true x y h k = h
if-is_dict false x y h k = k

suppress-is_dict : (d : Dict Json) (ts : Json) → is_dict d ≡ true → is_dict (suppress d ts) ≡ true
suppress-is_dict d ts h =
    if-is_dict (truthy ts) _ _
      (put-is_dict _ "dismissed_until" ts (put-is_dict d "dismiss_mode" (str "dismiss_until") h))
      (set_default-is_dict d "dismiss_mode" (str "permanent") h)

revert-is_dict : (d : Dict Json) → is_dict d ≡ true → is_dict (revert d) ≡ true
revert-is_dict d h = put-is_dict _ "dismissed_until" null (put-is_dict d "dismiss_mode" null h)

from_dismissed-is_dict :
    (dismissed : Json) (d : Dict Json)
    → is_dict d ≡ true
    → is_dict (from_dismissed dismissed d) ≡ true
unfolding from_dismissed
from_dismissed-is_dict dismissed d h =
    let left_is =
      if-is_dict (is_null (or_null (Dict.get d "dismissed_until"))) _ _
        (remove-is_dict d "dismiss_until" h) h in
    if-is_dict (truthy dismissed) _ _
      (suppress-is_dict _ (timestamp_of (or_null (Dict.get d "dismissed_until")) d)
        (set_default-is_dict _ "status" (str "suppressed") left_is))
      (revert-is_dict _ (set_default-is_dict _ "status" null left_is))

from_dismiss_until-is_dict :
    (ts : Json) (d : Dict Json) → is_dict d ≡ true → is_dict (from_dismiss_until ts d) ≡ true
unfolding from_dismiss_until
from_dismiss_until-is_dict ts d h =
    if-is_dict (truthy ts) _ _
      (put-is_dict _ "dismissed_until" ts (
        put-is_dict _ "dismiss_mode" (str "dismiss_until")
          (set_default-is_dict d "status" (str "suppressed") h)))
      h

from_dismiss_mode-is_dict :
    (mode : Json) (d : Dict Json) → is_dict d ≡ true → is_dict (from_dismiss_mode mode d) ≡ true
unfolding from_dismiss_mode
from_dismiss_mode-is_dict mode d h =
    if-is_dict (truthy mode) _ _ (set_default-is_dict d "status" (str "suppressed") h)
      (set_default-is_dict _ "dismissed_until" null (set_default-is_dict d "status" null h))

translate_by-is_dict :
    (dismissed until mode : Option Json) (d : Dict Json)
    → is_dict d ≡ true
    → is_dict (translate_by dismissed until mode d) ≡ true
unfolding translate_by
translate_by-is_dict (some dismissed) until mode d h =
    from_dismissed-is_dict dismissed _ (remove-is_dict d "dismissed" h)
translate_by-is_dict none (some ts) mode d h =
    from_dismiss_until-is_dict ts _ (remove-is_dict d "dismiss_until" h)
translate_by-is_dict none none (some m) d h = from_dismiss_mode-is_dict m d h
translate_by-is_dict none none none d h = h

pub normalize_enrichments-is_dict :
    (strict : Bool) (d r : Dict Json)
    → is_dict d ≡ true
    → normalize_enrichments strict d ≡ ok r
    → is_dict r ≡ true
unfolding translate
normalize_enrichments-is_dict strict d r h e =
    subst (λ x. is_dict x ≡ true) (sym (normalize_enrichments-known_part strict d r e))
      (known_part-is_dict (translate d) (
        translate_by-is_dict (Dict.get d "dismissed") (Dict.get d "dismiss_until")
          (Dict.get d "dismiss_mode") d h))
