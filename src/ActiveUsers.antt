-- ===== src/ActiveUsers.antt =====
-- src/services/active_users.py: how many users of each tenant were active, over the last day, week and
-- month. Times are whole numbers of seconds; `rows` is the table that the query reads.
pub mod Counts
pub mod Tests
use keep_api_gateway.Prelude.{
  ℕ, ◌+◌, String, Bool, true, false, not, ◌&&◌, ◌==◌, leb, length, contains, Option, none, some,
  List, [], ◌∷◌, ◌++◌, map, if◌then◌else◌,
}

pub record AlertAudit : Type 0 where
  pub tenant_id : String
  pub timestamp : ℕ
  pub user_id : String

-- `ACTIVE_USER_WINDOWS`
pub data Window : Type 0 where
  day week month : Window

abbrev pub seconds : Window → ℕ
seconds day = 86400
seconds week = 604800
seconds month = 2592000

abbrev pub windows : List Window
windows = day ∷ week ∷ month ∷ []

abbrev pub same_window : Window → Window → Bool
same_window day day = true
same_window week week = true
same_window month month = true
same_window _ _ = false

abbrev pub system_actors : List String
system_actors = "system" ∷ "keep" ∷ "Keep" ∷ []

abbrev pub select : (AlertAudit → Bool) → List AlertAudit → List AlertAudit
select keep [] = []
select keep (a ∷ rows) = if keep a then a ∷ select keep rows else select keep rows

-- `timestamp >= now - delta` and `user_id.notin_(SYSTEM_ACTORS)`
abbrev pub is_counted : ℕ → Window → AlertAudit → Bool
is_counted now w a = leb now (a.timestamp + seconds w) && not (contains system_actors a.user_id)

-- Texts without repetitions.
abbrev pub distinct : List String → List String
distinct [] = []
distinct (x ∷ xs) = if contains (distinct xs) x then distinct xs else x ∷ distinct xs

abbrev pub users_of : String → List AlertAudit → List String
users_of t rows = map (λ a. a.user_id) (select (λ a. a.tenant_id == t) rows)

abbrev pub tenants_of : List AlertAudit → List String
tenants_of rows = map (λ a. a.tenant_id) rows

-- The rows of the query: each tenant that has an entry, with the number of its users.
abbrev pub counts : List AlertAudit → List (String × ℕ)
counts rows = map (λ t. (t, length (distinct (users_of t rows)))) (distinct (tenants_of rows))

-- `counts.get(tenant_id, 0)`
abbrev pub get_count : List (String × ℕ) → String → ℕ
get_count [] t = 0
get_count ((k, n) ∷ entries) t = if k == t then n else get_count entries t

-- `per_window[window]`
abbrev pub per_window : ℕ → List AlertAudit → Window → List (String × ℕ)
per_window now rows w = counts (select (is_counted now w) rows)

abbrev pub keys : List (String × ℕ) → List String
keys [] = []
keys ((k, n) ∷ entries) = k ∷ keys entries

-- The set of tenants, after all windows.
abbrev pub tenants : ℕ → List AlertAudit → List String
tenants now rows = distinct (
    keys (per_window now rows day)
    ++ (keys (per_window now rows week) ++ keys (per_window now rows month)))

abbrev pub entries_for : ℕ → List AlertAudit → String → List Window → List ((String × Window) × ℕ)
entries_for now rows t [] = []
entries_for now rows t (w ∷ ws) =
    ((t, w), get_count (per_window now rows w) t) ∷ entries_for now rows t ws

abbrev pub entries_of : ℕ → List AlertAudit → List String → List ((String × Window) × ℕ)
entries_of now rows [] = []
entries_of now rows (t ∷ ts) = entries_for now rows t windows ++ entries_of now rows ts

-- `compute_active_users`
unfoldable pub compute_active_users : ℕ → List AlertAudit → List ((String × Window) × ℕ)
compute_active_users now rows = entries_of now rows (tenants now rows)

-- What the dict of the result has at a tenant and a window.
unfoldable pub lookup : List ((String × Window) × ℕ) → String → Window → Option ℕ
lookup [] t w = none
lookup (((k, v), n) ∷ entries) t w =
    if k == t && same_window v w then some n else lookup entries t w
