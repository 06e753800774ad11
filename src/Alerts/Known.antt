-- ===== src/Alerts/Known.antt =====
-- The keys of normalized enrichments: those that are columns.
use keep_api_gateway.Prelude.{
  String, Bool, true, false, none, List, [], ◌∷◌, ◌≡◌, refl, ◌∙◌, sym, ap, arith, eq_iff,
  if◌then◌else◌, Result, ok, err,
}
use keep_api_gateway.Prelude.Dict
use keep_api_gateway.Prelude.Dict.{Dict, get-put, get-remove}
use keep_api_gateway.Prelude.Json.{Json}
use keep_api_gateway.Alerts.Normalize.{
  Refusal, translate, is_column, unknown_keys, known_part, checked, normalize_enrichments,
}

pub get-known_part :
    (d : Dict Json) (key : String)
    → Dict.get (known_part d) key ≡ (if is_column key then Dict.get d key else none)
unfolding known_part Dict.get
get-known_part [] key = ground arith
get-known_part ((k, v) ∷ d) key = ground (arith, eq_iff k key, get-known_part d key)

pub known_part-all : (d : Dict Json) → unknown_keys d ≡ [] → known_part d ≡ d
unfolding known_part unknown_keys
known_part-all [] h = refl
known_part-all ((k, v) ∷ d) h = ground (arith, known_part-all d)

pub unknown_keys-known_part : (d : Dict Json) → unknown_keys (known_part d) ≡ []
unfolding known_part unknown_keys
unknown_keys-known_part [] = refl
unknown_keys-known_part ((k, v) ∷ d) = ground (arith, unknown_keys-known_part d)

abbrev dict_of : Result Refusal (Dict Json) → Dict Json
dict_of (ok d) = d
dict_of (err refusal) = []

checked-ok :
    (strict : Bool) (d r : Dict Json) (unknown : List String)
    → unknown_keys d ≡ unknown
    → checked strict d unknown ≡ ok r
    → r ≡ known_part d
checked-ok strict d r [] e h = sym (ap dict_of h) ∙ sym (known_part-all d e)
checked-ok true d r (k ∷ ks) e h = absurd (cc)
checked-ok false d r (k ∷ ks) e h = sym (ap dict_of h)

pub normalize_enrichments-known_part :
    (strict : Bool) (d r : Dict Json)
    → normalize_enrichments strict d ≡ ok r
    → r ≡ known_part (translate d)
unfolding normalize_enrichments
normalize_enrichments-known_part strict d r h =
    checked-ok strict (translate d) r (unknown_keys (translate d)) refl h
