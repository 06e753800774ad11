-- ===== src/Dedup/Events.antt =====
-- The events that the rules' loop records for an alert.
use keep_api_gateway.Prelude.{
  subst, String, true, false, Option, List, [], ◌∷◌, ◌≡◌, ◌⊎◌, inl, inr, refl, Bool-cases, Result,
  ok, err, ◌>>=◌,
}
use keep_api_gateway.Prelude.Dict.{Dict}
use keep_api_gateway.Prelude.Json.{Fields}
use keep_api_gateway.Dedup.{
  Rule, Raised, Event, Kind, full, partial, no_duplicate, kind_of, is_duplicate, after_rule,
  apply_rule, apply_rules,
}

-- The rules were tried in order, each with an event: those before the last found nothing, and the
-- last one tried is the first to find `found`, or is the last of the rules.
abbrev pub Trail : List Rule → List Event → Kind → Type 0
Trail [] events found = (events ≡ []) × (found ≡ no_duplicate)
Trail (rule ∷ rules) events found =
    ((events ≡ record { rule_id = rule.id; kind = found } ∷ []) × (is_duplicate found ≡ true))
    ⊎ ((later : List Event) × (events ≡ record { rule_id = rule.id; kind = no_duplicate } ∷ later)
        × Trail rules later found)

not_duplicate : (k : Kind) → is_duplicate k ≡ false → k ≡ no_duplicate
not_duplicate full h = absurd (cc)
not_duplicate partial h = absurd (cc)
not_duplicate no_duplicate h = refl

abbrev HasTrail : List Rule → Result Raised (Fields × List Event) → Type 0
HasTrail rules (err e) = Unit
HasTrail rules (ok r) = Trail rules r.1 (kind_of r.0)

later-HasTrail :
    (rule : Rule) (rules : List Rule) (k : Kind) (rest : Result Raised (Fields × List Event))
    → k ≡ no_duplicate
    → HasTrail rules rest
    → HasTrail (rule ∷ rules) (rest >>= λ r. ok (r.0, record { rule_id = rule.id; kind = k } ∷ r.1))
later-HasTrail rule rules k (err e) n h = tt
later-HasTrail rule rules k (ok r) n h = inr (r.1, rw n refl, h)

module _ (digest : Fields → String) (given : Option (Dict String)) (stored : Dict String) where
  after-HasTrail :
      (rule : Rule) (rules : List Rule) (alert : Fields)
      (rest : Result Raised (Fields × List Event))
      → (kind_of alert ≡ no_duplicate → HasTrail rules rest)
      → HasTrail (rule ∷ rules) (after_rule true rule.id alert rest)
  after-HasTrail rule rules alert rest h = elim (Bool-cases (is_duplicate (kind_of alert))) [
    | inl e ↦ rw e (inl (refl, e))
    | inr e ↦ rw e (
        later-HasTrail rule rules (kind_of alert) rest (not_duplicate (kind_of alert) e)
          (h (not_duplicate (kind_of alert) e)))
  ]

  bind-HasTrail :
      (rule : Rule) (rules : List Rule) (marked : Result Raised Fields)
      → ((m : Fields)
          → kind_of m ≡ no_duplicate
          → HasTrail rules (apply_rules digest given stored true rules m))
      → HasTrail
          (rule ∷ rules)
          (marked >>= λ m. after_rule true rule.id m (apply_rules digest given stored true rules m))
  bind-HasTrail rule rules (err e) h = tt
  bind-HasTrail rule rules (ok m) h =
      after-HasTrail rule rules m (apply_rules digest given stored true rules m) (h m)

  rules-HasTrail :
      (rules : List Rule) (alert : Fields)
      → kind_of alert ≡ no_duplicate
      → HasTrail rules (apply_rules digest given stored true rules alert)
  unfolding apply_rules
  rules-HasTrail [] alert n = (refl, n)
  rules-HasTrail (rule ∷ rules) alert n =
      bind-HasTrail rule rules (apply_rule digest given stored rule alert) (rules-HasTrail rules)

  -- With the distribution enabled, an alert that no rule has marked yet is tried against the rules in
  -- order up to the first that finds a duplicate. Each rule tried leaves one event, of no duplicate
  -- before the last, and the last event's kind is how the alert is marked in the end.
  pub apply_rules-Trail :
      (rules : List Rule) (alert final : Fields) (events : List Event)
      → kind_of alert ≡ no_duplicate
      → apply_rules digest given stored true rules alert ≡ ok (final, events)
      → Trail rules events (kind_of final)
  apply_rules-Trail rules alert final events n e =
      subst (HasTrail rules) e (rules-HasTrail rules alert n)
