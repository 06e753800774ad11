-- ===== src/Dedup/Defaults.antt =====
-- The rule that holds for the alerts of a provider.
use keep_api_gateway.Prelude.{
  subst, String, Bool, true, Option, none, some, List, [], ◌∷◌, ◌≡◌, ◌⊎◌, inl, inr, refl,
  Bool-cases, if◌then◌else◌, Result, ok, err, ◌>>=◌,
}
use keep_api_gateway.Dedup.{Rule, Raised}
use keep_api_gateway.Dedup.Rules.{Row, get_rules, rules_of, default_rule, type_or_keep, get_custom}

-- One rule, which ignores when the alert was last received unless a custom rule is for full duplicates.
abbrev pub IsOneRule : List Rule → Type 0
IsOneRule (rule ∷ []) =
    (rule.ignore_fields ≡ "last_received" ∷ []) ⊎ (rule.full_deduplication ≡ true)
IsOneRule _ = ⊥

rules_of-IsOneRule :
    (default : Rule) (custom : Option Rule)
    → default.ignore_fields ≡ "last_received" ∷ []
    → IsOneRule (rules_of default custom)
rules_of-IsOneRule default none d = inl d
rules_of-IsOneRule default (some rule) d = elim (Bool-cases rule.full_deduplication) [
  | inl e ↦ rw e (inr refl)
  | inr e ↦ rw e (inl d)
]

bind-IsOneRule :
    (default : Rule) (custom : Result Raised (Option Rule)) (rules : List Rule)
    → default.ignore_fields ≡ "last_received" ∷ []
    → (custom >>= λ rule. ok (rules_of default rule)) ≡ ok rules
    → IsOneRule rules
bind-IsOneRule default (err e) rules d h = absurd (cc)
bind-IsOneRule default (ok rule) rules d h =
    let s : rules_of default rule ≡ rules = cc in
    subst IsOneRule s (rules_of-IsOneRule default rule d)

-- The rules found for a provider are exactly one rule, and either it ignores just the time at which
-- the alert was last received, or it is for full duplicates.
get_rules-IsOneRule :
    (uuid5 : String → String) (custom : Bool) (tenant_id : String) (id kind : Option String)
    (rows : List Row) (rules : List Rule)
    → get_rules uuid5 custom tenant_id id kind rows ≡ ok rules
    → IsOneRule rules
unfolding get_rules default_rule
get_rules-IsOneRule uuid5 custom tenant_id id kind rows rules h =
    bind-IsOneRule (default_rule uuid5 id (some (type_or_keep kind)))
      (if custom then get_custom tenant_id id (type_or_keep kind) rows else ok none) rules refl h
