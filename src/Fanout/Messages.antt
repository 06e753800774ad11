-- ===== src/Fanout/Messages.antt =====
-- What `_deliver` makes of the messages that arrive.
use keep_api_gateway.Prelude.{◌↔◌, ap, Option, none, some, ◌≡◌, sym}
use keep_api_gateway.Prelude.Json.{Json, null, bool, number, str, arr, obj, Fields, end, get_field}
use keep_api_gateway.Fanout.{Fanout, Notice, deliver_payload, deliver_fields, data_or_empty}

-- What a message carries: its data, or an empty object where it has none.
abbrev pub Carries : Option Json → Json → Type 0
Carries none payload = payload ≡ obj end
Carries (some given) payload = payload ≡ given

-- The text of a message that is delivered: an object with both strings.
abbrev pub IsWellFormed : Option Json → Notice → Type 0
IsWellFormed none n = ⊥
IsWellFormed (some (obj fs)) n =
    (get_field fs "tenant_id" ≡ some (str n.tenant_id))
    × (get_field fs "event" ≡ some (str n.event))
    × Carries (get_field fs "data") n.payload
IsWellFormed (some _) n = ⊥

some_same {ℓ} : {A : Type ℓ} (x y : A) → some x ≡ some y → x ≡ y
some_same x y e = cc

carried : (o : Option Json) (payload : Json) → data_or_empty o ≡ payload → Carries o payload
carried none payload e = sym e
carried (some given) payload e = sym e

deliver_fields-some :
    (fs : Fields) (t e : Option Json) (f : Fanout) (n : Notice)
    → (deliver_fields fs t e f).1 ≡ some n
    → (t ≡ some (str n.tenant_id))
      × (e ≡ some (str n.event))
      × Carries (get_field fs "data") n.payload
deliver_fields-some fs (some (str t)) (some (str e)) f n d =
    let r =
      some_same (record { tenant_id = t; event = e; payload = data_or_empty (get_field fs "data") })
        n d in
    (
      ap (λ x. some (str x.tenant_id)) r,
      ap (λ x. some (str x.event)) r,
      carried (get_field fs "data") n.payload (ap (λ x. x.payload) r),
    )
deliver_fields-some fs t e f n d = absurd (cc)

delivered_data : (o : Option Json) (payload : Json) → Carries o payload → data_or_empty o ≡ payload
delivered_data none payload e = sym e
delivered_data (some given) payload e = sym e

deliver_fields-formed :
    (fs : Fields) (f : Fanout) (n : Notice)
    → Carries (get_field fs "data") n.payload
    → (deliver_fields fs (some (str n.tenant_id)) (some (str n.event)) f).1 ≡ some n
deliver_fields-formed fs f n c =
    ap (λ x. some (record { tenant_id = n.tenant_id; event = n.event; payload = x }))
      (delivered_data (get_field fs "data") n.payload c)

-- A message is delivered as a notice exactly when it is an object that names the notice's tenant and
-- event by strings and carries its payload: its `data`, or an empty object where it has none.
pub deliver_payload-IsWellFormed :
    (j : Option Json) (f : Fanout) (n : Notice)
    → ((deliver_payload j f).1 ≡ some n) ↔ IsWellFormed j n
unfolding deliver_payload
deliver_payload-IsWellFormed none f n = (λ d. absurd (cc), λ w. absurd w)
deliver_payload-IsWellFormed (some (obj fs)) f n = (
  λ d. deliver_fields-some fs (get_field fs "tenant_id") (get_field fs "event") f n d,
  λ w. rw (w.0) (rw (w.1) (deliver_fields-formed fs f n w.2)),
)
deliver_payload-IsWellFormed (some null) f n = (λ d. absurd (cc), λ w. absurd w)
deliver_payload-IsWellFormed (some (bool b)) f n = (λ d. absurd (cc), λ w. absurd w)
deliver_payload-IsWellFormed (some (number x)) f n = (λ d. absurd (cc), λ w. absurd w)
deliver_payload-IsWellFormed (some (str s)) f n = (λ d. absurd (cc), λ w. absurd w)
deliver_payload-IsWellFormed (some (arr vs)) f n = (λ d. absurd (cc), λ w. absurd w)
