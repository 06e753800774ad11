-- ===== src/Sse/Delivery.antt =====
-- What reaches a stream, and in which order.
use keep_api_gateway.Prelude.{
  ℕ, String, List, [], ◌∷◌, ◌++◌, nat_eq, ◌≡◌, refl, arith, if◌then◌else◌, sym,
}
use mathlib.Core.List.{append_assoc, append-nil}
use keep_api_gateway.Sse.Connections.{has, members, AllDistinct}
use keep_api_gateway.Sse.Registry.{IsRegistered, serves}
use keep_api_gateway.Sse.{
  Item, message, Broadcaster, notify, notify_queues, put_each, put_nowait, format_sse,
}

-- How often a queue is in a list.
abbrev pub copies : List ℕ → ℕ → Item → List Item
copies [] q x = []
copies (p ∷ ps) q x = let rest = copies ps q x in if nat_eq p q then x ∷ rest else rest

pub put_each_lem :
    (x : Item) (qs : List ℕ) (queues : ℕ → List Item) (q : ℕ)
    → put_each x qs queues q ≡ queues q ++ copies qs q x
put_each_lem x [] queues q = sym (append-nil (queues q))
put_each_lem x (p ∷ ps) queues q = ground (
  arith,
  put_each_lem x ps (put_nowait x p queues) q,
  append_assoc (queues q) (x ∷ []) (copies ps q x),
)

pub copies-AllDistinct :
    (qs : List ℕ) (q : ℕ) (x : Item)
    → AllDistinct qs
    → copies qs q x ≡ (if has qs q then x ∷ [] else [])
copies-AllDistinct [] q x d = refl
copies-AllDistinct (p ∷ ps) q x d = ground (arith, d.0, copies-AllDistinct ps q x d.1)

notify_queues-queues :
    (qs : List ℕ) (name json : String) (s : Broadcaster) (q : ℕ)
    → (notify_queues qs name json s).queues q
      ≡ s.queues q ++ copies qs q (message (format_sse name json))
notify_queues-queues [] name json s q = sym (append-nil (s.queues q))
notify_queues-queues (p ∷ ps) name json s q =
    put_each_lem (message (format_sse name json)) (p ∷ ps) s.queues q

module _ (s : Broadcaster) (r : IsRegistered s) where
  -- A notification puts one formatted message behind what is in the queue of each live stream of its
  -- tenant, and touches the queue of no other stream.
  pub notify-queues :
      (tenant_id name json : String) (q : ℕ)
      → (notify tenant_id name json s).queues q ≡ (
          if serves s q tenant_id
          then s.queues q ++ message (format_sse name json) ∷ []
          else s.queues q)
  unfolding notify
  notify-queues t name json q = ground (
    arith,
    notify_queues-queues (members s.connections t) name json s q,
    copies-AllDistinct (members s.connections t) q (message (format_sse name json)) (r.distinct t),
    r.listed t q,
    append-nil (s.queues q),
  )
