-- ===== src/Sse/Timeline.antt =====
-- The events of a stream in the order in which they are sent.
use keep_api_gateway.Prelude.{
  ℕ, String, Bool, true, false, List, [], ◌∷◌, ◌++◌, nat_eq, ◌≡◌, ◌≢◌, refl, arith, if◌then◌else◌,
  sym, ap, ◌∙◌,
}
use mathlib.Core.List.{append_assoc, append-nil}
use keep_api_gateway.Sse.Connections.{members, all_queues}
use keep_api_gateway.Sse.Registry.{IsRegistered, step-IsRegistered, serves}
use keep_api_gateway.Sse.{
  Item, message, close, Chunk, keepalive, event, shutdown, Phase, unused, live, over, Broadcaster,
  Event, subscribes, pulls, leaves, notifies, closes_all, reopens, subscribe, finish, pull, leave,
  notify, notify_queues, close_all, reopen, step, run, on_item, if_live, update, format_sse,
}
use keep_api_gateway.Sse.Delivery.{copies, put_each_lem, notify-queues}

-- The events among the chunks that were sent, and among the items that wait.
abbrev pub events : List Chunk → List String
events [] = []
events (keepalive ∷ cs) = events cs
events (event m ∷ cs) = m ∷ events cs

abbrev pub messages : List Item → List String
messages [] = []
messages (message m ∷ xs) = m ∷ messages xs
messages (close ∷ xs) = messages xs

-- All events of a stream so far, those that wait in its queue last.
abbrev pub timeline : Broadcaster → ℕ → List String
timeline s q = events (s.sent q) ++ messages (s.queues q)

abbrev pub news : Event → Broadcaster → ℕ → List String
news (notifies t name json) s q = if serves s q t then format_sse name json ∷ [] else []
news e s q = []

abbrev pub all_news : List Event → Broadcaster → ℕ → List String
all_news [] s q = []
all_news (e ∷ es) s q = news e s q ++ all_news es (step e s) q

events-append : (cs ds : List Chunk) → events (cs ++ ds) ≡ events cs ++ events ds
events-append [] ds = refl
events-append (keepalive ∷ cs) ds = events-append cs ds
events-append (event m ∷ cs) ds = ap (λ l. m ∷ l) (events-append cs ds)

messages-append : (xs ys : List Item) → messages (xs ++ ys) ≡ messages xs ++ messages ys
messages-append [] ys = refl
messages-append (message m ∷ xs) ys = ap (λ l. m ∷ l) (messages-append xs ys)
messages-append (close ∷ xs) ys = messages-append xs ys

timeline-on_item :
    (p q : ℕ) (items : List Item) (s : Broadcaster)
    → s.queues p ≡ items
    → timeline (on_item p items s) q ≡ timeline s q
unfolding finish
timeline-on_item p q [] s e = ground (
  arith,
  ap messages e,
  events-append (s.sent q) (keepalive ∷ []),
  append-nil (events (s.sent q)),
)
timeline-on_item p q (message m ∷ rest) s e = ground (
  arith,
  ap messages e,
  events-append (s.sent q) (event m ∷ []),
  append_assoc (events (s.sent q)) (m ∷ []) (messages rest),
)
timeline-on_item p q (close ∷ rest) s e = ground (arith, ap messages e)

abbrev pub IsStarted : Phase → Type 0
IsStarted unused = ⊥
IsStarted live = Unit
IsStarted (over reason) = Unit

started-ne-unused : (p : Phase) → IsStarted p → p ≢ unused
started-ne-unused unused h e = h
started-ne-unused live h e = cc
started-ne-unused (over r) h e = cc

sent-notify_queues :
    (qs : List ℕ) (name json : String) (s : Broadcaster)
    → (notify_queues qs name json s).sent ≡ s.sent
sent-notify_queues [] name json s = refl
sent-notify_queues (p ∷ ps) name json s = refl

sent-notify :
    (s : Broadcaster) (tenant_id name json : String) → (notify tenant_id name json s).sent ≡ s.sent
unfolding notify
sent-notify s t name json = sent-notify_queues (members s.connections t) name json s

messages-copies : (qs : List ℕ) (q : ℕ) → messages (copies qs q close) ≡ []
messages-copies [] q = refl
messages-copies (p ∷ ps) q = ground (arith, messages-copies ps q)

timeline-if_live :
    (p : Phase) (s t : Broadcaster) (q : ℕ)
    → timeline t q ≡ timeline s q
    → timeline (if_live p s t) q ≡ timeline s q
timeline-if_live unused s t q e = refl
timeline-if_live live s t q e = e
timeline-if_live (over r) s t q e = refl

module _ (s : Broadcaster) (r : IsRegistered s) (q : ℕ) (started : IsStarted (s.phase q)) where
  started-ne-next : nat_eq q s.next_queue ≡ false
  started-ne-next = ground (arith, r.fresh q, started-ne-unused (s.phase q) started)

  timeline-subscribe :
      (connected tenant_id : String) → timeline (subscribe connected tenant_id s) q ≡ timeline s q
  unfolding subscribe
  timeline-subscribe c t = ground (arith, started-ne-next)

  timeline-notify :
      (tenant_id name json : String)
      → timeline (notify tenant_id name json s) q
        ≡ timeline s q ++ news (notifies tenant_id name json) s q
  timeline-notify t name json =
      rw (notify-queues s r t name json q, sent-notify s t name json)
        (ground (
          arith,
          messages-append (s.queues q) (message (format_sse name json) ∷ []),
          append_assoc (events (s.sent q)) (messages (s.queues q)) (format_sse name json ∷ []),
          append-nil (timeline s q),
        ))

  timeline-close_all : timeline (close_all s) q ≡ timeline s q
  unfolding close_all
  timeline-close_all = ground (
    arith,
    put_each_lem close (all_queues s.connections) s.queues q,
    messages-append (s.queues q) (copies (all_queues s.connections) q close),
    messages-copies (all_queues s.connections) q,
    append-nil (messages (s.queues q)),
  )

  -- A step adds to the events of a stream that has started exactly the notification of its tenant, if
  -- the stream is live.
  pub timeline-step : (e : Event) → timeline (step e s) q ≡ timeline s q ++ news e s q
  unfolding step pull leave finish reopen
  timeline-step (subscribes c t) = timeline-subscribe c t ∙ sym (append-nil (timeline s q))
  timeline-step (pulls p) =
      timeline-if_live (s.phase p) s _ q (timeline-on_item p q (s.queues p) s refl)
      ∙ sym (append-nil (timeline s q))
  timeline-step (leaves p reason) =
      timeline-if_live (s.phase p) s _ q refl ∙ sym (append-nil (timeline s q))
  timeline-step (notifies t name json) = timeline-notify t name json
  timeline-step closes_all = timeline-close_all ∙ sym (append-nil (timeline s q))
  timeline-step reopens = sym (append-nil (timeline s q))

module _ (q : ℕ) where
  IsStarted-update :
      (phase : ℕ → Phase) (p : ℕ) (v : Phase)
      → IsStarted v
      → IsStarted (phase q)
      → IsStarted (update phase p v q)
  IsStarted-update phase p v hv h = go (nat_eq q p)
    where
      go : (b : Bool) → IsStarted (if b then v else phase q)
      go true = hv
      go false = h

  IsStarted-if :
      (b : Bool) (s t : Broadcaster)
      → IsStarted (s.phase q)
      → IsStarted (t.phase q)
      → IsStarted ((if b then s else t).phase q)
  IsStarted-if true s t h k = h
  IsStarted-if false s t h k = k

  IsStarted-if_live :
      (p : Phase) (s t : Broadcaster)
      → IsStarted (s.phase q)
      → IsStarted (t.phase q)
      → IsStarted ((if_live p s t).phase q)
  IsStarted-if_live live s t h k = k
  IsStarted-if_live unused s t h k = h
  IsStarted-if_live (over r) s t h k = h

  IsStarted-on_item :
      (p : ℕ) (items : List Item) (s : Broadcaster)
      → IsStarted (s.phase q)
      → IsStarted ((on_item p items s).phase q)
  unfolding finish
  IsStarted-on_item p [] s h = h
  IsStarted-on_item p (message m ∷ rest) s h = h
  IsStarted-on_item p (close ∷ rest) s h = IsStarted-update s.phase p (over shutdown) tt h

  IsStarted-notify_queues :
      (qs : List ℕ) (name json : String) (s : Broadcaster)
      → IsStarted (s.phase q)
      → IsStarted ((notify_queues qs name json s).phase q)
  IsStarted-notify_queues [] name json s h = h
  IsStarted-notify_queues (p ∷ ps) name json s h = h

  step-IsStarted :
      (e : Event) (s : Broadcaster) → IsStarted (s.phase q) → IsStarted ((step e s).phase q)
  unfolding step subscribe pull leave finish notify close_all reopen
  step-IsStarted (subscribes c t) s h =
      IsStarted-if s.draining _ _ h (IsStarted-update s.phase s.next_queue live tt h)
  step-IsStarted (pulls p) s h =
      IsStarted-if_live (s.phase p) s _ h (IsStarted-on_item p (s.queues p) s h)
  step-IsStarted (leaves p reason) s h =
      IsStarted-if_live (s.phase p) s _ h (IsStarted-update s.phase p (over reason) tt h)
  step-IsStarted (notifies t name json) s h =
      IsStarted-notify_queues (members s.connections t) name json s h
  step-IsStarted closes_all s h = h
  step-IsStarted reopens s h = h

-- Through any run, what a started stream has sent and what waits for it are, in order, what was there
-- before and then every notification of its tenant made while it was live: none is lost, none is
-- repeated, none overtakes another, and none comes from another tenant.
pub timeline-run :
    (es : List Event) (s : Broadcaster) (q : ℕ)
    → IsRegistered s
    → IsStarted (s.phase q)
    → timeline (run es s) q ≡ timeline s q ++ all_news es s q
unfolding run
timeline-run [] s q r h = sym (append-nil (timeline s q))
timeline-run (e ∷ es) s q r h =
    timeline-run es (step e s) q (step-IsRegistered e s r) (step-IsStarted q e s h)
    ∙ ap (λ l. l ++ all_news es (step e s) q) (timeline-step s r q h e)
    ∙ append_assoc (timeline s q) (news e s q) (all_news es (step e s) q)
