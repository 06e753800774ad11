-- ===== src/Alerts/Settled.antt =====
-- Enrichments after the translation: a second translation has nothing to do.
use keep_api_gateway.Prelude.{
  String, Bool, true, false, not, ◌&&◌, ◌||◌, Option, none, some, ◌==◌, ◌≡◌, refl, arith,
  if◌then◌else◌, ok,
}
use keep_api_gateway.Prelude.Dict
use keep_api_gateway.Prelude.Dict.{Dict, get-put, get-remove}
use keep_api_gateway.Prelude.Json.{Json}
use keep_api_gateway.Prelude.Json.Json.{null, str}
use keep_api_gateway.Alerts.{or_null, truthy}
use keep_api_gateway.Alerts.Normalize.{
  is_some, has_key, is_null, timestamp_of, set_default, suppress, revert, from_dismissed,
  from_dismiss_until, from_dismiss_mode, translate_by, translate, is_column, known_part,
  normalize_enrichments,
}
use keep_api_gateway.Alerts.Known.{
  get-known_part, unknown_keys-known_part, normalize_enrichments-known_part,
}

pub get-set_default :
    (d : Dict Json) (key : String) (v : Json) (j : String)
    → Dict.get (set_default d key v) j
      ≡ (if key == j && not (has_key d key) then some v else Dict.get d j)
unfolding set_default
get-set_default d key v j = ground (arith, get-put key j v d)

-- Both a key of earlier clients and `dismiss_mode` are there.
abbrev pub is_mixed : Dict Json → Bool
is_mixed d = (has_key d "dismissed" || has_key d "dismiss_until") && has_key d "dismiss_mode"

abbrev pub mode_settled : (mode status until : Option Json) → Bool
mode_settled none status until = true
mode_settled (some mode) status until = is_some status && (truthy mode || is_some until)

abbrev pub is_settled : Dict Json → Bool
is_settled d =
    mode_settled (Dict.get d "dismiss_mode") (Dict.get d "status") (Dict.get d "dismissed_until")

filled : (o : Option Json) (v : Json) → is_some (if not (is_some o) then some v else o) ≡ true
filled none v = refl
filled (some w) v = refl

from_dismiss_mode-settled :
    (mode : Json) (d : Dict Json)
    → Dict.get d "dismiss_mode" ≡ some mode
    → is_settled (from_dismiss_mode mode d) ≡ true
unfolding from_dismiss_mode
from_dismiss_mode-settled mode d e = split (truthy mode) refl
  where
    split :
        (t : Bool)
        → truthy mode ≡ t
        → is_settled (
            if t
            then set_default d "status" (str "suppressed")
            else set_default (set_default d "status" null) "dismissed_until" null)
          ≡ true
    split true h = simp (get-set_default, e, h, filled)
    split false h = simp (get-set_default, e, h, filled)

from_dismiss_until-settled :
    (ts : Json) (d : Dict Json)
    → Dict.get d "dismiss_mode" ≡ none
    → is_settled (from_dismiss_until ts (Dict.remove d "dismiss_until")) ≡ true
unfolding from_dismiss_until
from_dismiss_until-settled ts d no_mode = split (truthy ts)
  where
    split :
        (t : Bool)
        → is_settled (
            if t
            then Dict.put
                (Dict.put
                  (set_default (Dict.remove d "dismiss_until") "status" (str "suppressed"))
                  "dismiss_mode"
                  (str "dismiss_until"))
                "dismissed_until"
                ts
            else Dict.remove d "dismiss_until")
          ≡ true
    split true = simp (get-put, get-set_default, get-remove, filled)
    split false = simp (get-remove, no_mode)

suppress-settled :
    (d : Dict Json) (ts : Json)
    → Dict.get d "dismiss_mode" ≡ none
    → is_settled (suppress (set_default d "status" (str "suppressed")) ts) ≡ true
suppress-settled d ts no_mode = split (truthy ts)
  where
    split :
        (t : Bool)
        → is_settled (
            if t
            then Dict.put
                (Dict.put
                  (set_default d "status" (str "suppressed"))
                  "dismiss_mode"
                  (str "dismiss_until"))
                "dismissed_until"
                ts
            else set_default
                (set_default d "status" (str "suppressed"))
                "dismiss_mode"
                (str "permanent"))
          ≡ true
    split true = simp (get-put, get-set_default, filled)
    split false = simp (get-set_default, no_mode, filled)

revert-settled : (d : Dict Json) → is_settled (revert (set_default d "status" null)) ≡ true
revert-settled d = simp (get-put, get-set_default, filled)

from_dismissed-settled :
    (dismissed : Json) (d : Dict Json)
    → Dict.get d "dismiss_mode" ≡ none
    → is_settled (from_dismissed dismissed (Dict.remove d "dismissed")) ≡ true
unfolding from_dismissed
from_dismissed-settled dismissed d no_mode =
    split (truthy dismissed)
      (is_null (or_null (Dict.get (Dict.remove d "dismissed") "dismissed_until")))
      (timestamp_of (or_null (Dict.get (Dict.remove d "dismissed") "dismissed_until"))
        (Dict.remove d "dismissed"))
  where
    split :
        (t given : Bool) (ts : Json)
        → (let left =
              if given
              then Dict.remove (Dict.remove d "dismissed") "dismiss_until"
              else Dict.remove d "dismissed" in
            is_settled (
              if t
              then suppress (set_default left "status" (str "suppressed")) ts
              else revert (set_default left "status" null)))
          ≡ true
    split true true ts =
        suppress-settled (Dict.remove (Dict.remove d "dismissed") "dismiss_until") ts
          (simp (get-remove, no_mode))
    split true false ts =
        suppress-settled (Dict.remove d "dismissed") ts (simp (get-remove, no_mode))
    split false true ts = revert-settled (Dict.remove (Dict.remove d "dismissed") "dismiss_until")
    split false false ts = revert-settled (Dict.remove d "dismissed")

pub translate-settled : (d : Dict Json) → is_mixed d ≡ false → is_settled (translate d) ≡ true
unfolding translate translate_by
translate-settled d h =
    by_key (Dict.get d "dismissed") (Dict.get d "dismiss_until") (Dict.get d "dismiss_mode") refl h
  where
    by_key :
        (dismissed until mode : Option Json)
        → Dict.get d "dismiss_mode" ≡ mode
        → ((is_some dismissed || is_some until) && is_some mode) ≡ false
        → is_settled (translate_by dismissed until mode d) ≡ true
    by_key (some dismissed) until none e k = from_dismissed-settled dismissed d e
    by_key (some dismissed) until (some m) e k = absurd (cc)
    by_key none (some ts) none e k = from_dismiss_until-settled ts d e
    by_key none (some ts) (some m) e k = absurd (cc)
    by_key none none (some m) e k = from_dismiss_mode-settled m d e
    by_key none none none e k = rw e refl

set_default-present :
    (d : Dict Json) (key : String) (v : Json) → has_key d key ≡ true → set_default d key v ≡ d
unfolding set_default
set_default-present d key v h = ground (arith, h)

from_dismiss_mode-settled_stays :
    (mode : Json) (d : Dict Json)
    → mode_settled (some mode) (Dict.get d "status") (Dict.get d "dismissed_until") ≡ true
    → from_dismiss_mode mode d ≡ d
unfolding from_dismiss_mode
from_dismiss_mode-settled_stays mode d h = ground (
  arith,
  set_default-present d "status" (str "suppressed"),
  set_default-present d "status" null,
  set_default-present d "dismissed_until" null,
)

-- A dict without the keys of earlier clients that is settled is translated to itself.
stay-translate :
    (d : Dict Json)
    → Dict.get d "dismissed" ≡ none
    → Dict.get d "dismiss_until" ≡ none
    → is_settled d ≡ true
    → translate d ≡ d
unfolding translate translate_by
stay-translate d no_flag no_ts h =
    rw no_flag (rw no_ts (by_mode (Dict.get d "dismiss_mode") refl h))
  where
    by_mode :
        (mode : Option Json)
        → Dict.get d "dismiss_mode" ≡ mode
        → mode_settled mode (Dict.get d "status") (Dict.get d "dismissed_until") ≡ true
        → translate_by none none mode d ≡ d
    by_mode none e k = refl
    by_mode (some m) e k = from_dismiss_mode-settled_stays m d k

-- The known part of a settled dict is settled, and holds no key of earlier clients.
known_part-stays : (d : Dict Json) → is_settled d ≡ true → translate (known_part d) ≡ known_part d
unfolding is_column
known_part-stays d h =
    stay-translate (known_part d) (get-known_part d "dismissed") (get-known_part d "dismiss_until")
      (rw (get-known_part d "dismiss_mode")
        (rw (get-known_part d "status") (rw (get-known_part d "dismissed_until") h)))

-- Enrichments that do not mix a key of earlier clients with `dismiss_mode` are normalized once: what
-- comes out, in strict mode or not, is normalized to itself in either mode.
pub normalize_enrichments-again :
    (strict again : Bool) (d r : Dict Json)
    → is_mixed d ≡ false
    → normalize_enrichments strict d ≡ ok r
    → normalize_enrichments again r ≡ ok r
unfolding normalize_enrichments
normalize_enrichments-again strict again d r plain h =
    let e = normalize_enrichments-known_part strict d r h in
    let stays = known_part-stays (translate d) (translate-settled d plain) in
    rw e (rw stays (rw (unknown_keys-known_part (translate d)) refl))
