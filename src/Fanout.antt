-- ===== src/Fanout.antt =====
-- src/services/sse_fanout.py: the fan-out of notifications over Redis. Times and delays are whole
-- numbers of one unit, such as milliseconds, where the source has seconds as floats. What Redis and
-- the other tasks do while a coroutine waits comes in as events and outcomes.
pub mod Subscription
pub mod Messages
pub mod Backoff
pub mod Tests
use keep_api_gateway.Prelude.{
  ℕ, ◌+◌, ◌*◌, ◌-◌, min, String, contains, ◌==◌, Bool, true, false, ◌&&◌, not, Option, none, some,
  List, [], ◌∷◌, nat_eq, ltb, if◌then◌else◌,
}
use keep_api_gateway.Prelude.Json.{Json, str, obj, Fields, end, field, get_field}

pub data Operation : Type 0 where
  publish subscribe deliver decode schema : Operation

pub data Metric : Type 0 where
  published received : Metric
  connected : Bool → Metric
  failed : Operation → Metric

pub record Fanout : Type 0 where
  pub origin : String
  pub initial_delay : ℕ
  pub max_reconnect_delay : ℕ
  pub ping_interval : ℕ
  pub pong_timeout : ℕ
  pub subscribed : Bool
  pub subscription : ℕ
  pub publisher_open : Bool
  pub delay : ℕ
  pub metrics : List Metric

-- A call of the broadcaster's `notify`.
pub record Notice : Type 0 where
  pub tenant_id : String
  pub event : String
  pub payload : Json

-- `REFETCH_EVENTS`
abbrev pub refetch_events : List String
refetch_events = "poll-alerts" ∷ "incident-change" ∷ "incident-comment" ∷ []

-- How the publish ended: also a timeout counts as a failure.
unfoldable pub publish_ends : Bool → Fanout → Fanout
publish_ends true f = record f { publisher_open = true; metrics = published ∷ f.metrics }
publish_ends false f = record f { publisher_open = false; metrics = failed publish ∷ f.metrics }

-- `self._subscription if self._subscribed else None`
unfoldable pub current_subscription : Fanout → Option ℕ
current_subscription f = if f.subscribed then some f.subscription else none

abbrev pub same_subscription : Option ℕ → Fanout → Bool
same_subscription none f = false
same_subscription (some k) f = f.subscribed && nat_eq f.subscription k

-- The end of `broadcast`, in the state after the publish: the local delivery, if there is one.
unfoldable pub local_delivery : Option ℕ → Bool → Fanout → Notice → Option Notice
local_delivery before is_published f n =
    if is_published && same_subscription before f
    then none
    else some
        (record n { payload = if contains refetch_events n.event then obj end else n.payload })

-- What the subscriber loop does to the subscription, as seen from another task.
pub data Happening : Type 0 where
  -- SUBSCRIBE was acknowledged
  acknowledged : Happening
  -- an exception ended the inner loop, and `finally` has run
  lost : Happening
  -- another broadcast ended its publish
  other_publish : Bool → Happening

unfoldable pub happen : Happening → Fanout → Fanout
unfolding publish_ends
happen acknowledged f = record f {
  subscription = f.subscription + 1;
  subscribed = true;
  delay = f.initial_delay;
  metrics = connected true ∷ f.metrics;
}
happen lost f = record f {
  subscribed = false;
  delay = min (f.delay * 2) f.max_reconnect_delay;
  metrics = failed subscribe ∷ connected false ∷ f.metrics;
}
happen (other_publish is_published) f = publish_ends is_published f

unfoldable pub happens : List Happening → Fanout → Fanout
unfolding happen
happens [] f = f
happens (h ∷ hs) f = happens hs (happen h f)

-- `broadcast`: the publish takes the time in which `meanwhile` happens.
unfoldable pub broadcast :
    (is_published : Bool) (meanwhile : List Happening) → Notice → Fanout → Fanout × Option Notice
unfolding happens publish_ends current_subscription local_delivery
broadcast is_published meanwhile n f =
    let after = publish_ends is_published (happens meanwhile f) in
    (after, local_delivery (current_subscription f) is_published after n)

-- `payload.get("data", {})`
abbrev pub data_or_empty : Option Json → Json
data_or_empty none = obj end
data_or_empty (some j) = j

abbrev pub count_origin : Option Json → Fanout → Fanout
count_origin (some (str o)) f =
    if o == f.origin then f else record f { metrics = received ∷ f.metrics }
count_origin _ f = record f { metrics = received ∷ f.metrics }

abbrev pub malformed : Fanout → Fanout × Option Notice
malformed f = (record f { metrics = failed schema ∷ f.metrics }, none)

abbrev pub deliver_fields : Fields → Option Json → Option Json → Fanout → Fanout × Option Notice
deliver_fields fs (some (str t)) (some (str e)) f = (
  count_origin (get_field fs "origin") f,
  some (record { tenant_id = t; event = e; payload = data_or_empty (get_field fs "data") }),
)
deliver_fields fs _ _ f = malformed f

-- `_deliver`, on what `json.loads` made of the message; `none` is its exception.
unfoldable pub deliver_payload : Option Json → Fanout → Fanout × Option Notice
unfolding get_field
deliver_payload none f = (record f { metrics = failed decode ∷ f.metrics }, none)
deliver_payload (some (obj fs)) f =
    deliver_fields fs (get_field fs "tenant_id") (get_field fs "event") f
deliver_payload (some _) f = malformed f

-- One look at the clock in the inner loop of `_subscribe_loop`.
pub data Check : Type 0 where
  no_pong ping wait : Check

unfoldable pub check : Fanout → (now last_heard : ℕ) → (pinged : Bool) → Check
check f now last_heard pinged =
    if ltb (f.ping_interval + f.pong_timeout) (now - last_heard)
    then no_pong
    else if ltb f.ping_interval (now - last_heard) && not pinged
    then ping
    else wait
