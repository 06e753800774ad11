-- ===== src/Sse.antt =====
-- src/services/sse.py: the broadcaster of one process. A part of a coroutine between two awaits, and
-- a part under the broadcaster's lock, is one step here, since nothing else runs meanwhile. A queue is
-- named by a number; `queues` is the heap that holds what is in it.
pub mod Connections
pub mod Registry
pub mod Delivery
pub mod Timeline
pub mod Shutdown
pub mod Tests
use keep_api_gateway.Prelude.{
  ℕ, suc, ◌+◌, String, ◌⧺◌, ◌==◌, contains, Bool, true, false, Option, none, some, List, [], ◌∷◌,
  ◌++◌, nat_eq, if◌then◌else◌,
}
use keep_api_gateway.Prelude.Dict
use keep_api_gateway.Prelude.Dict.{Dict}
use Connections.{members, add_queue, drop_queue, all_queues}

-- What a queue holds: a formatted event, or the marker `_CLOSE`.
pub data Item : Type 0 where
  message : String → Item
  close : Item

-- What a stream sends: the comment `: keepalive`, or an event.
pub data Chunk : Type 0 where
  keepalive : Chunk
  event : String → Chunk

-- `close_reason`
pub data Reason : Type 0 where
  client shutdown error : Reason

-- The life of one `subscribe` generator.
pub data Phase : Type 0 where
  unused live : Phase
  over : Reason → Phase

pub data Outcome : Type 0 where
  delivered no_subscriber : Outcome

-- The calls on the counters and the gauge.
pub data Metric : Type 0 where
  user_connected user_disconnected : (tenant_id : String) → Metric
  stream_closed : Reason → Metric
  notification : (event_label : String) → Outcome → Metric

pub record Broadcaster : Type 0 where
  pub connections : Dict (List ℕ)
  pub draining : Bool
  pub next_queue : ℕ
  pub queues : ℕ → List Item
  pub tenant_of : ℕ → String
  pub phase : ℕ → Phase
  pub sent : ℕ → List Chunk
  pub metrics : List Metric

-- `__init__`
abbrev pub init : Broadcaster
init = record {
  connections = [];
  draining = false;
  next_queue = 0;
  queues = λ q. [];
  tenant_of = λ q. "";
  phase = λ q. unused;
  sent = λ q. [];
  metrics = [];
}

abbrev pub update {ℓ} : {A : Type ℓ} → (ℕ → A) → ℕ → A → ℕ → A
update f q v i = if nat_eq i q then v else f i

-- `SSE_EVENTS`
abbrev pub sse_events : List String
sse_events =
    "connected" ∷ "poll-alerts" ∷ "incident-change" ∷ "incident-comment" ∷ "poll-presets"
    ∷ "topology-update" ∷ "ai-logs-change" ∷ "alert-update" ∷ []

-- `_format_sse`, given the JSON text of the data
abbrev pub format_sse : String → String → String
format_sse name json = "event: " ⧺ (name ⧺ ("\ndata: " ⧺ (json ⧺ "\n\n")))

-- `queue.put_nowait`
abbrev pub put_nowait : Item → ℕ → (ℕ → List Item) → ℕ → List Item
put_nowait x q queues = update queues q (queues q ++ x ∷ [])

abbrev pub put_each : Item → List ℕ → (ℕ → List Item) → ℕ → List Item
put_each x [] queues = queues
put_each x (q ∷ qs) queues = put_each x qs (put_nowait x q queues)

-- The start of `subscribe`, up to the first `yield`; `connected` is the JSON text that announces the
-- keepalive interval.
unfoldable pub subscribe : (connected : String) → String → Broadcaster → Broadcaster
subscribe connected tenant_id s =
    if s.draining then record s { metrics = stream_closed shutdown ∷ s.metrics } else record s {
      connections = add_queue s.connections tenant_id s.next_queue;
      next_queue = s.next_queue + 1;
      queues = update s.queues s.next_queue [];
      tenant_of = update s.tenant_of s.next_queue tenant_id;
      phase = update s.phase s.next_queue live;
      sent = update s.sent s.next_queue (event (format_sse "connected" connected) ∷ []);
      metrics = user_connected tenant_id ∷ s.metrics;
    }

-- The `finally` block of `subscribe`.
unfoldable pub finish : ℕ → Reason → Broadcaster → Broadcaster
finish q reason s = record s {
  connections = drop_queue s.connections (s.tenant_of q) q;
  phase = update s.phase q (over reason);
  metrics = stream_closed reason ∷ user_disconnected (s.tenant_of q) ∷ s.metrics;
}

abbrev pub send : ℕ → Chunk → Broadcaster → Broadcaster
send q c s = record s { sent = update s.sent q (s.sent q ++ c ∷ []) }

-- One turn of the `while True` loop, with what the queue held.
abbrev pub on_item : ℕ → List Item → Broadcaster → Broadcaster
on_item q [] s = send q keepalive s
on_item q (message m ∷ rest) s = send q (event m) (record s { queues = update s.queues q rest })
on_item q (close ∷ rest) s = finish q shutdown (record s { queues = update s.queues q rest })

abbrev pub if_live : Phase → Broadcaster → Broadcaster → Broadcaster
if_live live s t = t
if_live _ s t = s

unfoldable pub pull : ℕ → Broadcaster → Broadcaster
unfolding finish
pull q s = if_live (s.phase q) s (on_item q (s.queues q) s)

-- The client goes away (`client`), or the stream fails (`error`).
unfoldable pub leave : ℕ → Reason → Broadcaster → Broadcaster
unfolding finish
leave q reason s = if_live (s.phase q) s (finish q reason s)

abbrev pub metric_event : String → String
metric_event name = if contains sse_events name then name else "other"

abbrev pub notify_queues : List ℕ → String → String → Broadcaster → Broadcaster
notify_queues [] name json s = record s {
  metrics = notification (metric_event name) no_subscriber ∷ s.metrics;
}
notify_queues (q ∷ qs) name json s = record s {
  queues = put_each (message (format_sse name json)) (q ∷ qs) s.queues;
  metrics = notification (metric_event name) delivered ∷ s.metrics;
}

unfoldable pub notify : String → (name json : String) → Broadcaster → Broadcaster
notify tenant_id name json s = notify_queues (members s.connections tenant_id) name json s

unfoldable pub close_all : Broadcaster → Broadcaster
close_all s = record s {
  draining = true;
  queues = put_each close (all_queues s.connections) s.queues;
}

unfoldable pub reopen : Broadcaster → Broadcaster
reopen s = record s { draining = false }

-- What may happen next: the environment chooses.
pub data Event : Type 0 where
  subscribes : (connected tenant_id : String) → Event
  pulls : ℕ → Event
  leaves : ℕ → Reason → Event
  notifies : (tenant_id name json : String) → Event
  closes_all reopens : Event

unfoldable pub step : Event → Broadcaster → Broadcaster
step (subscribes connected tenant_id) s = subscribe connected tenant_id s
step (pulls q) s = pull q s
step (leaves q reason) s = leave q reason s
step (notifies tenant_id name json) s = notify tenant_id name json s
step closes_all s = close_all s
step reopens s = reopen s

unfoldable pub run : List Event → Broadcaster → Broadcaster
unfolding step
run [] s = s
run (e ∷ es) s = run es (step e s)
