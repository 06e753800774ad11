-- ===== src/ActiveUsers/Tests.antt =====
-- The counts of a small table.
use keep_api_gateway.Prelude.{some, none, List, [], ◌∷◌, contains, ◌≡◌, refl, if◌then◌else◌}
use keep_api_gateway.ActiveUsers.{
  AlertAudit, day, week, month, compute_active_users, lookup, tenants_of, select, is_counted,
}
use keep_api_gateway.ActiveUsers.Counts.{user_count, compute_active_users-lookup}

abbrev rows : List AlertAudit
rows =
    record { tenant_id = "keep"; timestamp = 9900000; user_id = "ann" }
    ∷ record { tenant_id = "keep"; timestamp = 9000000; user_id = "ann" }
    ∷ record { tenant_id = "keep"; timestamp = 9600000; user_id = "bob" }
    ∷ record { tenant_id = "keep"; timestamp = 9999999; user_id = "system" }
    ∷ record { tenant_id = "other"; timestamp = 9999999; user_id = "keep" }
    ∷ []

compute_active_users-lookup_example : lookup (compute_active_users 10000000 rows) "keep" week ≡ (
    if contains (tenants_of (select (is_counted 10000000 month) rows)) "keep"
    then some (user_count 10000000 rows "keep" week)
    else none)
compute_active_users-lookup_example = compute_active_users-lookup 10000000 rows "keep" week

active_users : Unit {0}
unfolding compute_active_users lookup
active_users = tt
  where
    weekly : lookup (compute_active_users 10000000 rows) "keep" week ≡ some 2
    weekly = refl

    daily : lookup (compute_active_users 10000000 rows) "keep" day ≡ some 0
    daily = refl

    unknown : lookup (compute_active_users 10000000 rows) "other" month ≡ none
    unknown = refl
