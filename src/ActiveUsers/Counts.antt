-- ===== src/ActiveUsers/Counts.antt =====
-- The counts that are reported.
use keep_api_gateway.Prelude.{
  ℕ, ◌+◌, ◌≤◌, String, Bool, true, false, not, ◌&&◌, ◌||◌, ◌==◌, eq_iff, leb, length, contains,
  Option, none, some, List, [], ◌∷◌, ◌++◌, map, ◌≡◌, refl, sym, ap, ◌∙◌, arith, if◌then◌else◌,
}
use keep_api_gateway.ActiveUsers.{
  AlertAudit, Window, day, week, month, seconds, windows, system_actors, select, is_counted,
  distinct, users_of, tenants_of, counts, get_count, per_window, keys, tenants, entries_for,
  entries_of, compute_active_users, lookup,
}

contains-append :
    (xs ys : List String) (k : String) → contains (xs ++ ys) k ≡ (contains xs k || contains ys k)
contains-append [] ys k = refl
contains-append (x ∷ xs) ys k =
    ap (λ b. x == k || b) (contains-append xs ys k)
    ∙ or_assoc (x == k) (contains xs k) (contains ys k)
  where
    or_assoc : (a b c : Bool) → (a || (b || c)) ≡ ((a || b) || c)
    or_assoc true b c = refl
    or_assoc false b c = refl

contains-distinct : (xs : List String) (k : String) → contains (distinct xs) k ≡ contains xs k
contains-distinct [] k = refl
contains-distinct (x ∷ xs) k =
    each (contains (distinct xs) x) (x == k) refl refl
    ∙ ap (λ b. x == k || b) (contains-distinct xs k)
  where
    each :
        (b e : Bool)
        → contains (distinct xs) x ≡ b
        → (x == k) ≡ e
        → contains (if b then distinct xs else x ∷ distinct xs) k
          ≡ ((x == k) || contains (distinct xs) k)
    each false e h q = refl
    each true false h q = rw (q) refl
    each true true h q = rw (q) (ap (contains (distinct xs)) (sym ((eq_iff x k).0 q)) ∙ h)

keys-map : (f : String → ℕ) (ts : List String) → keys (map (λ t. (t, f t)) ts) ≡ ts
keys-map f [] = refl
keys-map f (t ∷ ts) = ap (λ r. t ∷ r) (keys-map f ts)

get_count-map :
    (f : String → ℕ) (ts : List String) (k : String)
    → get_count (map (λ t. (t, f t)) ts) k ≡ (if contains ts k then f k else 0)
get_count-map f [] k = refl
get_count-map f (t ∷ ts) k = each (t == k) refl (get_count-map f ts k)
  where
    each :
        (e : Bool)
        → (t == k) ≡ e
        → get_count (map (λ t. (t, f t)) ts) k ≡ (if contains ts k then f k else 0)
        → (if e then f t else get_count (map (λ t. (t, f t)) ts) k)
          ≡ (if e || contains ts k then f k else 0)
    each true q r = ap f ((eq_iff t k).0 q)
    each false q r = r

no_users :
    (t : String) (rows : List AlertAudit)
    → contains (tenants_of rows) t ≡ false
    → users_of t rows ≡ []
no_users t [] h = refl
no_users t (a ∷ rows) h = each (a.tenant_id == t) h (no_users t rows)
  where
    each :
        (e : Bool)
        → (e || contains (tenants_of rows) t) ≡ false
        → (contains (tenants_of rows) t ≡ false → users_of t rows ≡ [])
        → map
            (λ x. x.user_id)
            (if e
              then a ∷ select (λ x. x.tenant_id == t) rows
              else select (λ x. x.tenant_id == t) rows)
          ≡ []
    each true h r = absurd (cc)
    each false h r = r h

abbrev pub user_count : ℕ → List AlertAudit → String → Window → ℕ
user_count now rows t w = length (distinct (users_of t (select (is_counted now w) rows)))

get_count-counts :
    (rows : List AlertAudit) (t : String)
    → get_count (counts rows) t ≡ length (distinct (users_of t rows))
get_count-counts rows t =
    get_count-map (λ k. length (distinct (users_of k rows))) (distinct (tenants_of rows)) t
    ∙ ap (λ b. if b then length (distinct (users_of t rows)) else 0)
        (contains-distinct (tenants_of rows) t)
    ∙ each (contains (tenants_of rows) t) refl
  where
    each :
        (b : Bool)
        → contains (tenants_of rows) t ≡ b
        → (if b then length (distinct (users_of t rows)) else 0)
          ≡ length (distinct (users_of t rows))
    each true h = refl
    each false h = ap (λ us. length (distinct us)) (sym (no_users t rows h))

-- Longer windows have the tenants of the shorter ones.
longer :
    (now : ℕ) (v w : Window) (rows : List AlertAudit) (t : String)
    → seconds v ≤ seconds w
    → contains (tenants_of (select (is_counted now v) rows)) t ≡ true
    → contains (tenants_of (select (is_counted now w) rows)) t ≡ true
longer now v w [] t h k = k
longer now v w (a ∷ rows) t h k =
    each (is_counted now v a) (is_counted now w a)
      (counted_longer now a.timestamp (not (contains system_actors a.user_id))) k
      (longer now v w rows t h)
  where
    counted_longer :
        (now stamp : ℕ) (human : Bool)
        → (leb now (stamp + seconds v) && human) ≡ true
        → (leb now (stamp + seconds w) && human) ≡ true
    counted_longer now stamp human q = ground arith

    rest : Window → List AlertAudit
    rest u = select (is_counted now u) rows

    kept : Window → Bool → List String
    kept u b = tenants_of (if b then a ∷ rest u else rest u)

    or_right : (x y : Bool) → y ≡ true → (x || y) ≡ true
    or_right true y q = refl
    or_right false y q = q

    or_each : (x y z : Bool) → (y ≡ true → z ≡ true) → (x || y) ≡ true → (x || z) ≡ true
    or_each true y z i q = refl
    or_each false y z i q = i q

    each :
        (b c : Bool)
        → (b ≡ true → c ≡ true)
        → contains (kept v b) t ≡ true
        → (contains (tenants_of (rest v)) t ≡ true → contains (tenants_of (rest w)) t ≡ true)
        → contains (kept w c) t ≡ true
    each true true i k r = or_each (a.tenant_id == t) _ _ r k
    each true false i k r = absurd (cc (i refl))
    each false true i k r = or_right (a.tenant_id == t) _ (r k)
    each false false i k r = r k

-- The tenants with an entry are those of the longest window.
keys-per_window :
    (now : ℕ) (rows : List AlertAudit) (w : Window) (t : String)
    → contains (keys (per_window now rows w)) t
      ≡ contains (tenants_of (select (is_counted now w) rows)) t
keys-per_window now rows w t =
    let found = tenants_of (select (is_counted now w) rows) in
    ap (λ ks. contains ks t)
      (keys-map (λ k. length (distinct (users_of k (select (is_counted now w) rows))))
        (distinct found))
    ∙ contains-distinct found t

tenants-month :
    (now : ℕ) (rows : List AlertAudit) (t : String)
    → contains (tenants now rows) t ≡ contains (tenants_of (select (is_counted now month) rows)) t
tenants-month now rows t =
    contains-distinct _ t
    ∙ contains-append (keys (per_window now rows day)) _ t
    ∙ ap (λ b. contains (keys (per_window now rows day)) t || b)
        (contains-append (keys (per_window now rows week)) _ t)
    ∙ rw
        (
          keys-per_window now rows day t,
          keys-per_window now rows week t,
          keys-per_window now rows month t,
        )
        (absorbed _ _ _ (longer now day month rows t (omega arith))
          (longer now week month rows t (omega arith)))
  where
    absorbed : (a b c : Bool) → (a ≡ true → c ≡ true) → (b ≡ true → c ≡ true) → (a || (b || c)) ≡ c
    absorbed true b c i j = sym (i refl)
    absorbed false true c i j = sym (j refl)
    absorbed false false c i j = refl

-- One of three windows is the one that is looked up.
one_of_three :
    (a b c e : Bool) (x y z r p : Option ℕ)
    → (if a then x else if b then y else if c then z else r) ≡ p
    → (if e && a then x else if e && b then y else if e && c then z else r) ≡ (if e then p else r)
one_of_three a b c true x y z r p h = h
one_of_three a b c false x y z r p h = refl

lookup-entries_for :
    (now : ℕ) (rows : List AlertAudit) (k t : String) (w : Window)
    (rest : List ((String × Window) × ℕ))
    → lookup (entries_for now rows k windows ++ rest) t w
      ≡ (if k == t then some (get_count (per_window now rows w) k) else lookup rest t w)
unfolding lookup
lookup-entries_for now rows k t day rest =
    one_of_three true false false (k == t) _ _ _ (lookup rest t day) _ refl
lookup-entries_for now rows k t week rest =
    one_of_three false true false (k == t) _ _ _ (lookup rest t week) _ refl
lookup-entries_for now rows k t month rest =
    one_of_three false false true (k == t) _ _ _ (lookup rest t month) _ refl

lookup-entries_of :
    (now : ℕ) (rows : List AlertAudit) (ts : List String) (t : String) (w : Window)
    → lookup (entries_of now rows ts) t w
      ≡ (if contains ts t then some (get_count (per_window now rows w) t) else none)
unfolding lookup
lookup-entries_of now rows [] t w = refl
lookup-entries_of now rows (k ∷ ts) t w =
    lookup-entries_for now rows k t w (entries_of now rows ts)
    ∙ each (k == t) refl (lookup-entries_of now rows ts t w)
  where
    each :
        (e : Bool)
        → (k == t) ≡ e
        → lookup (entries_of now rows ts) t w
          ≡ (if contains ts t then some (get_count (per_window now rows w) t) else none)
        → (if e
            then some (get_count (per_window now rows w) k)
            else lookup (entries_of now rows ts) t w)
          ≡ (if e || contains ts t then some (get_count (per_window now rows w) t) else none)
    each true q r = ap (λ u. some (get_count (per_window now rows w) u)) ((eq_iff k t).0 q)
    each false q r = r

-- A tenant is reported in every window as soon as a user, who is no system actor, acted there in the
-- last thirty days, and in no window otherwise; what is reported of a window is the number of
-- different users of the tenant, system actors aside, who acted within it, zero included.
pub compute_active_users-lookup :
    (now : ℕ) (rows : List AlertAudit) (t : String) (w : Window)
    → lookup (compute_active_users now rows) t w ≡ (
        if contains (tenants_of (select (is_counted now month) rows)) t
        then some (user_count now rows t w)
        else none)
unfolding compute_active_users
compute_active_users-lookup now rows t w =
    lookup-entries_of now rows (tenants now rows) t w
    ∙ ap (λ b. if b then some (get_count (per_window now rows w) t) else none)
        (tenants-month now rows t)
    ∙ ap
        (λ n. if contains (tenants_of (select (is_counted now month) rows)) t then some n else none)
        (get_count-counts (select (is_counted now w) rows) t)
