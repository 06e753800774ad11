-- ===== src/Sse/Shutdown.antt =====
-- `close_all` ends every stream.
use keep_api_gateway.Prelude.{
  ℕ, zero, suc, String, ◌==◌, eq_refl, Bool, true, false, ◌||◌, List, [], ◌∷◌, ◌++◌, ◌≡◌, refl,
  arith, ap, ◌∙◌, length,
}
use keep_api_gateway.Sse.Connections.{has, members, all_queues, has-all_queues}
use keep_api_gateway.Sse.Registry.{IsRegistered, live_at}
use keep_api_gateway.Sse.Delivery.{copies, put_each_lem}
use keep_api_gateway.Sse.{
  Item, message, close, Reason, shutdown, Phase, unused, live, over, Broadcaster, Event, subscribes,
  pulls, leaves, notifies, closes_all, reopens, subscribe, finish, pull, leave, notify,
  notify_queues, close_all, step, run, on_item, if_live, format_sse,
}

abbrev pub has_close : List Item → Bool
has_close [] = false
has_close (close ∷ xs) = true
has_close (message m ∷ xs) = has_close xs

has_close-append : (xs ys : List Item) → has_close (xs ++ ys) ≡ (has_close xs || has_close ys)
has_close-append [] ys = refl
has_close-append (close ∷ xs) ys = refl
has_close-append (message m ∷ xs) ys = has_close-append xs ys

has_close-copies : (qs : List ℕ) (q : ℕ) → has_close (copies qs q close) ≡ has qs q
has_close-copies [] q = refl
has_close-copies (p ∷ ps) q = ground (arith, has_close-copies ps q)

-- The server drains, and each live stream has the marker before it.
pub record IsDraining (s : Broadcaster) : Type 0 where
  pub draining : s.draining ≡ true
  pub marked : (q : ℕ) → s.phase q ≡ live → has_close (s.queues q) ≡ true

live-registered :
    (s : Broadcaster) (q : ℕ)
    → IsRegistered s
    → s.phase q ≡ live
    → has (members s.connections (s.tenant_of q)) q ≡ true
live-registered s q r e =
    r.listed (s.tenant_of q) q
    ∙ ap (λ p. live_at p (s.tenant_of q == s.tenant_of q)) e
    ∙ eq_refl (s.tenant_of q)

close_all-IsDraining : (s : Broadcaster) → IsRegistered s → IsDraining (close_all s)
unfolding close_all
close_all-IsDraining s r = record {
  draining = refl;
  marked = λ q e. rw (put_each_lem close (all_queues s.connections) s.queues q) (
      ground (
        arith,
        has_close-append (s.queues q) (copies (all_queues s.connections) q close),
        has_close-copies (all_queues s.connections) q,
        has-all_queues s.connections (s.tenant_of q) q (live-registered s q r e),
      ));
}

abbrev pub NoReopen : List Event → Type 0
NoReopen [] = Unit
NoReopen (reopens ∷ es) = ⊥
NoReopen (e ∷ es) = NoReopen es

on_item-IsDraining :
    (p : ℕ) (items : List Item) (s : Broadcaster)
    → s.queues p ≡ items
    → IsDraining s
    → IsDraining (on_item p items s)
unfolding finish
on_item-IsDraining p [] s e d = record { draining = d.draining; marked = d.marked }
on_item-IsDraining p (message m ∷ rest) s e d = record {
  draining = d.draining;
  marked = λ q l. ground (arith, d.marked q l, ap has_close e);
}
on_item-IsDraining p (close ∷ rest) s e d = record {
  draining = d.draining;
  marked = λ q l. ground (arith, d.marked q, ap has_close e);
}

if_live-IsDraining :
    (p : Phase) (s t : Broadcaster) → IsDraining s → IsDraining t → IsDraining (if_live p s t)
if_live-IsDraining live s t d e = e
if_live-IsDraining unused s t d e = d
if_live-IsDraining (over r) s t d e = d

finish-IsDraining :
    (p : ℕ) (r : Reason) (s : Broadcaster) → IsDraining s → IsDraining (finish p r s)
unfolding finish
finish-IsDraining p r s d = record {
  draining = d.draining;
  marked = λ q l. ground (arith, d.marked q);
}

notify_queues-IsDraining :
    (qs : List ℕ) (name json : String) (s : Broadcaster)
    → IsDraining s
    → IsDraining (notify_queues qs name json s)
notify_queues-IsDraining [] name json s d = record { draining = d.draining; marked = d.marked }
notify_queues-IsDraining (p ∷ ps) name json s d = record {
  draining = d.draining;
  marked = λ q l. rw (put_each_lem (message (format_sse name json)) (p ∷ ps) s.queues q) (
      ground (
        arith,
        d.marked q l,
        has_close-append (s.queues q) (copies (p ∷ ps) q (message (format_sse name json))),
      ));
}

step-IsDraining :
    (e : Event) (es : List Event) (s : Broadcaster)
    → NoReopen (e ∷ es)
    → IsDraining s
    → IsDraining (step e s)
unfolding step subscribe pull leave notify close_all
step-IsDraining (subscribes c t) es s n d =
    rw d.draining (record { draining = refl; marked = d.marked })
step-IsDraining (pulls p) es s n d =
    if_live-IsDraining (s.phase p) s _ d (on_item-IsDraining p (s.queues p) s refl d)
step-IsDraining (leaves p r) es s n d =
    if_live-IsDraining (s.phase p) s _ d (finish-IsDraining p r s d)
step-IsDraining (notifies t name json) es s n d =
    notify_queues-IsDraining (members s.connections t) name json s d
step-IsDraining closes_all es s n d = record {
  draining = refl;
  marked = λ q l. rw (put_each_lem close (all_queues s.connections) s.queues q) (
      ground (
        arith,
        d.marked q l,
        has_close-append (s.queues q) (copies (all_queues s.connections) q close),
      ));
}
step-IsDraining reopens es s n d = absurd n

NoReopen-tail : (e : Event) (es : List Event) → NoReopen (e ∷ es) → NoReopen es
NoReopen-tail (subscribes c t) es n = n
NoReopen-tail (pulls p) es n = n
NoReopen-tail (leaves p r) es n = n
NoReopen-tail (notifies t name json) es n = n
NoReopen-tail closes_all es n = n
NoReopen-tail reopens es n = absurd n

run-IsDraining :
    (es : List Event) (s : Broadcaster) → NoReopen es → IsDraining s → IsDraining (run es s)
unfolding run
run-IsDraining [] s n d = d
run-IsDraining (e ∷ es) s n d =
    run-IsDraining es (step e s) (NoReopen-tail e es n) (step-IsDraining e es s n d)

-- The stream `q` turns its loop `n` times.
unfoldable pub turns : ℕ → ℕ → Broadcaster → Broadcaster
turns zero q s = s
turns (suc n) q s = turns n q (pull q s)

abbrev pub is_over : Phase → Bool
is_over (over r) = true
is_over live = false
is_over unused = false

turns_over :
    (n q : ℕ) (s : Broadcaster) (r : Reason)
    → s.phase q ≡ over r
    → is_over ((turns n q s).phase q) ≡ true
unfolding turns pull finish
turns_over zero q s r e = ap is_over e
turns_over (suc n) q s r e = turns_over n q (pull q s) r (ground arith)

turns_end :
    (items : List Item) (q : ℕ) (s : Broadcaster)
    → s.queues q ≡ items
    → s.phase q ≡ live
    → has_close items ≡ true
    → is_over ((turns (length items) q s).phase q) ≡ true
unfolding turns pull finish
turns_end [] q s e l c = cc
turns_end (message m ∷ rest) q s e l c = turns_end rest q (pull q s) (ground arith) (ground arith) c
turns_end (close ∷ rest) q s e l c = turns_over (length rest) q (pull q s) shutdown (ground arith)

-- Once `close_all` has been called and until `reopen`, whatever else happens, each stream that is
-- still live ends after at most as many turns of its loop as items wait in its queue.
pub close_all-ends :
    (s : Broadcaster) (es : List Event) (q : ℕ)
    → IsRegistered s
    → NoReopen es
    → (run es (close_all s)).phase q ≡ live
    → is_over ((turns (length ((run es (close_all s)).queues q)) q (run es (close_all s))).phase q)
      ≡ true
close_all-ends s es q r n l =
    turns_end _ q (run es (close_all s)) refl l
      ((run-IsDraining es (close_all s) n (close_all-IsDraining s r)).marked q l)
