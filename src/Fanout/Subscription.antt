-- ===== src/Fanout/Subscription.antt =====
-- When a broadcast leaves the delivery to the channel, its own subscription was there all the time.
use keep_api_gateway.Prelude.{
  ap, ◌∙◌, sym, ℕ, ◌+◌, ◌≤◌, contains, Bool, true, false, ◌&&◌, Option, none, some, List, [], ◌∷◌,
  ◌≡◌, refl, arith, if◌then◌else◌,
}
use keep_api_gateway.Prelude.Json.{obj, end}
use keep_api_gateway.Fanout.{
  Fanout, Notice, Happening, acknowledged, lost, other_publish, happen, happens, broadcast,
  publish_ends, current_subscription, local_delivery, same_subscription, refetch_events,
}

-- The subscription is there before and after each thing that happens.
abbrev pub StaysSubscribed : List Happening → Fanout → Type 0
StaysSubscribed [] f = f.subscribed ≡ true
StaysSubscribed (h ∷ hs) f = (f.subscribed ≡ true) × StaysSubscribed hs (happen h f)

-- The counter only grows.
subscription-le : (hs : List Happening) (f : Fanout) → f.subscription ≤ (happens hs f).subscription
unfolding happens
subscription-le [] f = omega arith
subscription-le (acknowledged ∷ hs) f = omega (arith, subscription-le hs (happen acknowledged f))
subscription-le (lost ∷ hs) f = subscription-le hs (happen lost f)
subscription-le (other_publish true ∷ hs) f = subscription-le hs (happen (other_publish true) f)
subscription-le (other_publish false ∷ hs) f = subscription-le hs (happen (other_publish false) f)

-- Once lost, a subscription of the same number does not come back.
not_back :
    (hs : List Happening) (f : Fanout)
    → f.subscribed ≡ false
    → (happens hs f).subscribed ≡ true
    → f.subscription + 1 ≤ (happens hs f).subscription
unfolding happens
not_back [] f e h = cc
not_back (acknowledged ∷ hs) f e h = subscription-le hs (happen acknowledged f)
not_back (lost ∷ hs) f e h = not_back hs (happen lost f) refl h
not_back (other_publish true ∷ hs) f e h = not_back hs (happen (other_publish true) f) e h
not_back (other_publish false ∷ hs) f e h = not_back hs (happen (other_publish false) f) e h

stays_subscribed :
    (hs : List Happening) (f : Fanout)
    → f.subscribed ≡ true
    → (happens hs f).subscribed ≡ true
    → (happens hs f).subscription ≡ f.subscription
    → StaysSubscribed hs f
unfolding happens
stays_subscribed [] f b a e = b
stays_subscribed (acknowledged ∷ hs) f b a e =
    absurd (omega (arith, subscription-le hs (happen acknowledged f)))
stays_subscribed (lost ∷ hs) f b a e = absurd (omega (arith, not_back hs (happen lost f) refl a))
stays_subscribed (other_publish true ∷ hs) f b a e =
    (b, stays_subscribed hs (happen (other_publish true) f) b a e)
stays_subscribed (other_publish false ∷ hs) f b a e =
    (b, stays_subscribed hs (happen (other_publish false) f) b a e)

local_delivery-none :
    (before f : Fanout) (is_published : Bool) (n : Notice)
    → local_delivery (current_subscription before) is_published f n ≡ none
    → (is_published ≡ true)
      × (before.subscribed ≡ true)
      × (f.subscribed ≡ true)
      × (f.subscription ≡ before.subscription)
unfolding local_delivery current_subscription
local_delivery-none before f is_published n e = ground arith

publish_ends-subscribed :
    (p : Bool) (f : Fanout)
    → ((publish_ends p f).subscribed ≡ f.subscribed)
      × ((publish_ends p f).subscription ≡ f.subscription)
unfolding publish_ends
publish_ends-subscribed true f = (refl, refl)
publish_ends-subscribed false f = (refl, refl)

-- A broadcast that makes no local delivery was published, and from before the publish until after it
-- this process was subscribed without a gap.
pub broadcast-no_gap :
    (is_published : Bool) (meanwhile : List Happening) (n : Notice) (f : Fanout)
    → (broadcast is_published meanwhile n f).1 ≡ none
    → (is_published ≡ true) × StaysSubscribed meanwhile f
unfolding broadcast
broadcast-no_gap p hs n f e =
    let r = local_delivery-none f (publish_ends p (happens hs f)) p n e in
    let k = publish_ends-subscribed p (happens hs f) in
    (r.0, stays_subscribed hs f r.1 (sym k.0 ∙ r.2) (sym k.1 ∙ r.3))

if_none-some {ℓ} : {A : Type ℓ} (b : Bool) (x y : A) → (if b then none else some x) ≡ some y → x ≡ y
if_none-some true x y e = cc
if_none-some false x y e = cc

local_delivery-some :
    (before : Option ℕ) (p : Bool) (f : Fanout) (n m : Notice)
    → local_delivery before p f n ≡ some m
    → (m.tenant_id ≡ n.tenant_id)
      × (m.event ≡ n.event)
      × (m.payload ≡ (if contains refetch_events n.event then obj end else n.payload))
unfolding local_delivery
local_delivery-some before p f n m e =
    let r =
      if_none-some (p && same_subscription before f)
        (record n { payload = if contains refetch_events n.event then obj end else n.payload }) m
        e in
    (sym (ap (λ x. x.tenant_id) r), sym (ap (λ x. x.event) r), sym (ap (λ x. x.payload) r))

-- A local delivery of a broadcast has its tenant and event; its payload is empty for the events that
-- the views answer by refetching, and the broadcast's own for the others.
broadcast-local :
    (is_published : Bool) (meanwhile : List Happening) (n m : Notice) (f : Fanout)
    → (broadcast is_published meanwhile n f).1 ≡ some m
    → (m.tenant_id ≡ n.tenant_id)
      × (m.event ≡ n.event)
      × (m.payload ≡ (if contains refetch_events n.event then obj end else n.payload))
unfolding broadcast
broadcast-local p hs n m f e =
    local_delivery-some (current_subscription f) p (publish_ends p (happens hs f)) n m e
