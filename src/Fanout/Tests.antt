-- ===== src/Fanout/Tests.antt =====
-- A fan-out whose subscription is replaced, and the theorems at it.
use keep_api_gateway.Prelude.{◌↔◌, true, false, some, List, [], ◌∷◌, ◌≡◌, refl}
use keep_api_gateway.Fanout.Subscription.{StaysSubscribed, broadcast-no_gap}
use keep_api_gateway.Fanout.Messages.{IsWellFormed, deliver_payload-IsWellFormed}
use keep_api_gateway.Prelude.Json.{Json, str, obj, end, field, get_field}
use keep_api_gateway.Fanout.{
  Fanout, Notice, Happening, acknowledged, lost, other_publish, happens, happen, broadcast,
  publish_ends, current_subscription, local_delivery, deliver_payload, received, check,
}

abbrev gateway : Fanout
gateway = record {
  origin = "a";
  initial_delay = 1;
  max_reconnect_delay = 30;
  ping_interval = 15;
  pong_timeout = 5;
  subscribed = true;
  subscription = 4;
  publisher_open = true;
  delay = 1;
  metrics = [];
}

abbrev poll : Notice
poll = record {
  tenant_id = "acme";
  event = "poll-alerts";
  payload = obj (field "text" (str "3 new") end);
}

abbrev poll_again : Notice
poll_again = record { tenant_id = "acme"; event = "poll-alerts"; payload = obj end }

abbrev replaced : List Happening
replaced = lost ∷ acknowledged ∷ []

fanout : Unit {0}
unfolding broadcast happens happen publish_ends current_subscription local_delivery deliver_payload
    get_field check
fanout = tt

broadcast-no_gap_example : (true ≡ true) × StaysSubscribed (other_publish false ∷ []) gateway
broadcast-no_gap_example =
    broadcast-no_gap true (other_publish false ∷ []) poll gateway (unfold fanout in refl)

-- A message of another process without data.
abbrev ping_message : Json
ping_message =
    obj (field "origin" (str "b") (field "tenant_id" (str "acme") (field "event" (str "ping") end)))

abbrev ping_notice : Notice
ping_notice = record { tenant_id = "acme"; event = "ping"; payload = obj end }

ping_runs :
    deliver_payload (some ping_message) gateway
    ≡ (record gateway { metrics = received ∷ gateway.metrics }, some ping_notice)
ping_runs = unfold fanout in refl

deliver_payload-IsWellFormed_example :
    ((deliver_payload (some ping_message) gateway).1 ≡ some ping_notice)
    ↔ IsWellFormed (some ping_message) ping_notice
deliver_payload-IsWellFormed_example =
    deliver_payload-IsWellFormed (some ping_message) gateway ping_notice
