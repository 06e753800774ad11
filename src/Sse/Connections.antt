-- ===== src/Sse/Connections.antt =====
-- The dict `_connections`, from a tenant to the queues of its streams.
use keep_api_gateway.Prelude.{
  ℕ, String, ◌==◌, eq_iff, Bool, true, false, ◌&&◌, ◌||◌, not, Option, none, some, List, [], ◌∷◌,
  ◌++◌, nat_eq, ◌≡◌, ◌≢◌, refl, arith, if◌then◌else◌,
}
use keep_api_gateway.Prelude.Dict
use keep_api_gateway.Prelude.Dict.{Dict, get-put, get-remove}

-- `queue in queues`
abbrev pub has : List ℕ → ℕ → Bool
has [] q = false
has (x ∷ xs) q = nat_eq x q || has xs q

-- `queues.remove(queue)`; a queue that is not there is the ValueError that the source passes over.
abbrev pub remove : List ℕ → ℕ → List ℕ
remove [] q = []
remove (x ∷ xs) q = let rest = remove xs q in if nat_eq x q then xs else x ∷ rest

abbrev pub AllDistinct : List ℕ → Type 0
AllDistinct [] = Unit
AllDistinct (x ∷ xs) = (has xs x ≡ false) × AllDistinct xs

abbrev pub or_empty : Option (List ℕ) → List ℕ
or_empty none = []
or_empty (some qs) = qs

-- `self._connections.get(tenant_id, [])`
abbrev pub members : Dict (List ℕ) → String → List ℕ
members d tenant_id = or_empty (Dict.get d tenant_id)

unfoldable pub add_queue : Dict (List ℕ) → String → ℕ → Dict (List ℕ)
add_queue d tenant_id q = Dict.put d tenant_id (members d tenant_id ++ q ∷ [])

-- A tenant whose last queue goes is deleted.
abbrev pub put_back : Dict (List ℕ) → String → List ℕ → Dict (List ℕ)
put_back d tenant_id [] = Dict.remove d tenant_id
put_back d tenant_id (x ∷ xs) = Dict.put d tenant_id (x ∷ xs)

abbrev pub drop_found : Dict (List ℕ) → String → ℕ → Option (List ℕ) → Dict (List ℕ)
drop_found d tenant_id q none = d
drop_found d tenant_id q (some qs) = if has qs q then put_back d tenant_id (remove qs q) else d

unfoldable pub drop_queue : Dict (List ℕ) → String → ℕ → Dict (List ℕ)
drop_queue d tenant_id q = drop_found d tenant_id q (Dict.get d tenant_id)

-- `[queue for queues in self._connections.values() for queue in queues]`
unfoldable pub all_queues : Dict (List ℕ) → List ℕ
all_queues [] = []
all_queues ((k, qs) ∷ d) = qs ++ all_queues d

pub members-add_queue :
    (d : Dict (List ℕ)) (t u : String) (q : ℕ)
    → members (add_queue d t q) u ≡ (if t == u then members d t ++ q ∷ [] else members d u)
unfolding add_queue
members-add_queue d t u q = ground (arith, get-put t u (members d t ++ q ∷ []) d)

pub has-append : (xs ys : List ℕ) (q : ℕ) → has (xs ++ ys) q ≡ (has xs q || has ys q)
has-append [] ys q = refl
has-append (x ∷ xs) ys q = ground (arith, has-append xs ys q)

pub has-remove :
    (xs : List ℕ) (p q : ℕ) → AllDistinct xs → has (remove xs p) q ≡ (not (nat_eq p q) && has xs q)
has-remove [] p q d = ground arith
has-remove (x ∷ xs) p q d = ground (arith, d.0, has-remove xs p q d.1)

pub AllDistinct-remove : (xs : List ℕ) (q : ℕ) → AllDistinct xs → AllDistinct (remove xs q)
AllDistinct-remove [] q d = tt
AllDistinct-remove (x ∷ xs) q d =
    ground (arith, d.0, AllDistinct-remove xs q d.1, has-remove xs q x d.1)

pub AllDistinct-append_one :
    (xs : List ℕ) (q : ℕ) → AllDistinct xs → has xs q ≡ false → AllDistinct (xs ++ q ∷ [])
AllDistinct-append_one [] q d h = (refl, tt)
AllDistinct-append_one (x ∷ xs) q d h =
    ground (arith, AllDistinct-append_one xs q d.1, has-append xs (q ∷ []) x)

remove-absent : (xs : List ℕ) (q : ℕ) → has xs q ≡ false → remove xs q ≡ xs
remove-absent [] q h = refl
remove-absent (x ∷ xs) q h = ground (arith, remove-absent xs q)

members-put_back :
    (d : Dict (List ℕ)) (t u : String) (qs : List ℕ)
    → members (put_back d t qs) u ≡ (if t == u then qs else members d u)
members-put_back d t u [] = ground (arith, get-remove t u d)
members-put_back d t u (x ∷ xs) = ground (arith, get-put t u (x ∷ xs) d)

members-drop_found :
    (d : Dict (List ℕ)) (t u : String) (q : ℕ) (o : Option (List ℕ))
    → Dict.get d t ≡ o
    → members (drop_found d t q o) u ≡ (if t == u then remove (or_empty o) q else members d u)
members-drop_found d t u q none e = ground (arith, eq_iff t u)
members-drop_found d t u q (some qs) e =
    ground (arith, eq_iff t u, members-put_back d t u (remove qs q), remove-absent qs q)

pub members-drop_queue :
    (d : Dict (List ℕ)) (t u : String) (q : ℕ)
    → members (drop_queue d t q) u ≡ (if t == u then remove (members d t) q else members d u)
unfolding drop_queue
members-drop_queue d t u q = members-drop_found d t u q (Dict.get d t) refl

-- No tenant is kept with an empty list.
abbrev pub IsTidy : Dict (List ℕ) → Type 0
IsTidy d = (t : String) → Dict.get d t ≢ some []

put_back-IsTidy :
    (d : Dict (List ℕ)) (t : String) (qs : List ℕ) → IsTidy d → IsTidy (put_back d t qs)
put_back-IsTidy d t [] h u = ground (arith, get-remove t u d, h u)
put_back-IsTidy d t (x ∷ xs) h u = ground (arith, get-put t u (x ∷ xs) d, h u)

drop_found-IsTidy :
    (d : Dict (List ℕ)) (t : String) (q : ℕ) (o : Option (List ℕ))
    → IsTidy d
    → IsTidy (drop_found d t q o)
drop_found-IsTidy d t q none h u = h u
drop_found-IsTidy d t q (some qs) h u = ground (arith, put_back-IsTidy d t (remove qs q) h u, h u)

pub drop_queue-IsTidy :
    (d : Dict (List ℕ)) (t : String) (q : ℕ) → IsTidy d → IsTidy (drop_queue d t q)
unfolding drop_queue
drop_queue-IsTidy d t q h = drop_found-IsTidy d t q (Dict.get d t) h

append_one-ne-nil : (xs : List ℕ) (q : ℕ) → xs ++ q ∷ [] ≢ []
append_one-ne-nil [] q e = cc
append_one-ne-nil (x ∷ xs) q e = cc

pub add_queue-IsTidy :
    (d : Dict (List ℕ)) (t : String) (q : ℕ) → IsTidy d → IsTidy (add_queue d t q)
unfolding add_queue
add_queue-IsTidy d t q h u =
    ground (arith, get-put t u (members d t ++ q ∷ []) d, h u, append_one-ne-nil (members d t) q)

-- Every queue of a tenant is among the queues of all tenants.
pub has-all_queues :
    (d : Dict (List ℕ)) (t : String) (q : ℕ)
    → has (members d t) q ≡ true
    → has (all_queues d) q ≡ true
unfolding all_queues Dict.get
has-all_queues [] t q h = cc
has-all_queues ((k, qs) ∷ d) t q h =
    ground (arith, has-append qs (all_queues d) q, has-all_queues d t q)
