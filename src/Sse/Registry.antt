-- ===== src/Sse/Registry.antt =====
-- The dict of connections holds exactly the live streams.
use keep_api_gateway.Prelude.{
  ℕ, ◌≤◌, String, ◌==◌, eq_iff, Bool, true, false, List, [], ◌∷◌, ◌≡◌, refl, arith, Bool-cases, inl,
  inr, if◌then◌else◌,
}
use keep_api_gateway.Prelude.Dict
use native.Mathlib.Nat.{le_refl}
use keep_api_gateway.Sse.Connections.{
  has, members, AllDistinct, IsTidy, members-add_queue, members-drop_queue, has-append, has-remove,
  AllDistinct-remove, AllDistinct-append_one, drop_queue-IsTidy, add_queue-IsTidy,
}
use keep_api_gateway.Sse.{
  Item, message, close, Reason, shutdown, Phase, unused, live, over, Broadcaster, init, Event,
  subscribes, pulls, leaves, notifies, closes_all, reopens, subscribe, finish, pull, leave, notify,
  notify_queues, close_all, reopen, step, run, on_item, if_live, update,
}

abbrev pub live_at : Phase → Bool → Bool
live_at live b = b
live_at unused b = false
live_at (over r) b = false

-- The queue `q` serves a stream of the tenant that has started and not ended.
abbrev pub serves : Broadcaster → ℕ → String → Bool
serves s q tenant_id = live_at (s.phase q) (s.tenant_of q == tenant_id)

pub record IsRegistered (s : Broadcaster) : Type 0 where
  pub listed : (t : String) (q : ℕ) → has (members s.connections t) q ≡ serves s q t
  pub distinct : (t : String) → AllDistinct (members s.connections t)
  pub tidy : IsTidy s.connections
  pub fresh : (q : ℕ) → s.next_queue ≤ q → s.phase q ≡ unused

AllDistinct-if :
    (b : Bool) (xs ys : List ℕ)
    → AllDistinct xs
    → AllDistinct ys
    → AllDistinct (if b then xs else ys)
AllDistinct-if true xs ys h k = h
AllDistinct-if false xs ys h k = k

IsRegistered-init : IsRegistered init
unfolding Dict.get
IsRegistered-init = record {
  listed = λ t q. refl;
  distinct = λ t. tt;
  tidy = λ t e. cc;
  fresh = λ q h. refl;
}

module _ (s : Broadcaster) (r : IsRegistered s) where
  subscribe-IsRegistered :
      (connected tenant_id : String) → IsRegistered (subscribe connected tenant_id s)
  unfolding subscribe
  subscribe-IsRegistered c t = elim (Bool-cases s.draining) [
    | inl e ↦
        rw e (record { listed = r.listed; distinct = r.distinct; tidy = r.tidy; fresh = r.fresh })
    | inr e ↦ rw e (record {
      listed = λ u q. ground (
        arith,
        members-add_queue s.connections t u s.next_queue,
        has-append (members s.connections t) (s.next_queue ∷ []) q,
        r.listed u q,
        r.listed t q,
        r.fresh s.next_queue (le_refl s.next_queue),
        eq_iff t u,
      );
      distinct = λ u. rw (members-add_queue s.connections t u s.next_queue) (
          AllDistinct-if (t == u) _ _
            (AllDistinct-append_one (members s.connections t) s.next_queue (r.distinct t) (
              ground (arith, r.listed t s.next_queue, r.fresh s.next_queue (le_refl s.next_queue))))
            (r.distinct u));
      tidy = add_queue-IsTidy s.connections t s.next_queue r.tidy;
      fresh = λ q h. ground (arith, r.fresh q);
    })
  ]

  finish-IsRegistered :
      (q : ℕ) (reason : Reason) → s.phase q ≡ live → IsRegistered (finish q reason s)
  unfolding finish
  finish-IsRegistered q reason e = record {
    listed = λ u p. ground (
      arith,
      members-drop_queue s.connections (s.tenant_of q) u q,
      has-remove (members s.connections (s.tenant_of q)) q p (r.distinct (s.tenant_of q)),
      r.listed u p,
      r.listed (s.tenant_of q) p,
      eq_iff (s.tenant_of q) u,
    );
    distinct = λ u. rw (members-drop_queue s.connections (s.tenant_of q) u q) (
        AllDistinct-if (s.tenant_of q == u) _ _
          (AllDistinct-remove (members s.connections (s.tenant_of q)) q
            (r.distinct (s.tenant_of q)))
          (r.distinct u));
    tidy = drop_queue-IsTidy s.connections (s.tenant_of q) q r.tidy;
    fresh = λ p h. ground (arith, r.fresh p h);
  }

  -- Steps that only move items leave the registry as it is.
  pub same-IsRegistered :
      (t : Broadcaster)
      → t.connections ≡ s.connections
      → t.phase ≡ s.phase
      → t.tenant_of ≡ s.tenant_of
      → t.next_queue ≡ s.next_queue
      → IsRegistered t
  same-IsRegistered t c p o n = record {
    listed = λ u q. rw (c, p, o) (r.listed u q);
    distinct = λ u. rw c (r.distinct u);
    tidy = rw c r.tidy;
    fresh = λ q h. rw p (r.fresh q (rw n at h));
  }

on_item-IsRegistered :
    (s : Broadcaster)
    → IsRegistered s
    → (q : ℕ) (items : List Item) → s.phase q ≡ live
    → IsRegistered (on_item q items s)
on_item-IsRegistered s r q [] e = same-IsRegistered s r _ refl refl refl refl
on_item-IsRegistered s r q (message m ∷ rest) e = same-IsRegistered s r _ refl refl refl refl
on_item-IsRegistered s r q (close ∷ rest) e =
    finish-IsRegistered (record s { queues = update s.queues q rest })
      (same-IsRegistered s r _ refl refl refl refl) q shutdown e

if_live-IsRegistered :
    (p : Phase) (s t : Broadcaster)
    → IsRegistered s
    → (p ≡ live → IsRegistered t)
    → IsRegistered (if_live p s t)
if_live-IsRegistered live s t r f = f refl
if_live-IsRegistered unused s t r f = r
if_live-IsRegistered (over reason) s t r f = r

notify_queues-IsRegistered :
    (s : Broadcaster)
    → IsRegistered s
    → (qs : List ℕ) (name json : String) → IsRegistered (notify_queues qs name json s)
notify_queues-IsRegistered s r [] name json = same-IsRegistered s r _ refl refl refl refl
notify_queues-IsRegistered s r (q ∷ qs) name json = same-IsRegistered s r _ refl refl refl refl

pub step-IsRegistered : (e : Event) (s : Broadcaster) → IsRegistered s → IsRegistered (step e s)
unfolding step pull leave notify close_all reopen
step-IsRegistered (subscribes connected tenant_id) s r =
    subscribe-IsRegistered s r connected tenant_id
step-IsRegistered (pulls q) s r =
    if_live-IsRegistered (s.phase q) s _ r (on_item-IsRegistered s r q (s.queues q))
step-IsRegistered (leaves q reason) s r =
    if_live-IsRegistered (s.phase q) s _ r (finish-IsRegistered s r q reason)
step-IsRegistered (notifies tenant_id name json) s r =
    notify_queues-IsRegistered s r (members s.connections tenant_id) name json
step-IsRegistered closes_all s r = same-IsRegistered s r _ refl refl refl refl
step-IsRegistered reopens s r = same-IsRegistered s r _ refl refl refl refl

run_from-IsRegistered :
    (es : List Event) (s : Broadcaster) → IsRegistered s → IsRegistered (run es s)
unfolding run
run_from-IsRegistered [] s r = r
run_from-IsRegistered (e ∷ es) s r = run_from-IsRegistered es (step e s) (step-IsRegistered e s r)

-- Whatever happens from the start, in any order: the dict lists, for each tenant and once each, the
-- queues of exactly that tenant's live streams, no tenant is kept with an empty list, and the queues
-- not yet made serve no stream.
pub run-IsRegistered : (es : List Event) → IsRegistered (run es init)
run-IsRegistered es = run_from-IsRegistered es init IsRegistered-init
