-- ===== src/Dedup/Verdict.antt =====
-- What one rule finds out about an alert.
use keep_api_gateway.Prelude.{
  String, ◌==◌, eq_iff, Bool, true, false, Option, none, some, ◌≡◌, refl, ◌∙◌, arith, Bool-cases,
  inl, inr, if◌then◌else◌, ok,
}
use keep_api_gateway.Prelude.Dict.{Dict}
use keep_api_gateway.Prelude.Json.{
  Json, bool, str, Fields, get_field, put_field, get_field-put_field,
}
use keep_api_gateway.Dedup.{
  Rule, Kind, full, partial, no_duplicate, kind_of, is_true, hash_of, known_hashes, mark,
  apply_hash, apply_rule, remove_fields,
}

-- The verdict from the last hash and the new one.
abbrev pub verdict : Option String → String → Kind
verdict none hash = no_duplicate
verdict (some last) hash = if last == hash then full else partial

get_other :
    (fs : Fields) (k : String) (v : Json) (j : String)
    → (k == j) ≡ false
    → get_field (put_field fs k v) j ≡ get_field fs j
get_other fs k v j n = get_field-put_field fs k v j ∙ rw n refl

get_same : (fs : Fields) (k : String) (v : Json) → get_field (put_field fs k v) k ≡ some v
get_same fs k v = get_field-put_field fs k v k ∙ ground (arith, eq_iff k k)

kind_of-hash :
    (fs : Fields) (hash : String) → kind_of (put_field fs "alert_hash" (str hash)) ≡ kind_of fs
kind_of-hash fs hash =
    rw (get_other fs "alert_hash" (str hash) "is_full_duplicate" refl)
      (rw (get_other fs "alert_hash" (str hash) "is_partial_duplicate" refl) refl)

not_full :
    (f p : Bool)
    → (if f then full else if p then partial else no_duplicate) ≡ no_duplicate
    → (if f then full else partial) ≡ partial
not_full true p h = absurd (cc)
not_full false p h = refl

kind_of-partial :
    (fs : Fields)
    → kind_of fs ≡ no_duplicate
    → kind_of (put_field fs "is_partial_duplicate" (bool true)) ≡ partial
kind_of-partial fs h =
    rw (get_other fs "is_partial_duplicate" (bool true) "is_full_duplicate" refl) (
      rw (get_same fs "is_partial_duplicate" (bool true)) (
        not_full (is_true (get_field fs "is_full_duplicate"))
          (is_true (get_field fs "is_partial_duplicate")) h))

kind_of-mark :
    (last : Option String) (hash : String) (fs : Fields)
    → kind_of fs ≡ no_duplicate
    → kind_of (mark last hash fs) ≡ verdict last hash
kind_of-mark none hash fs h = h
kind_of-mark (some last) hash fs h = elim (Bool-cases (last == hash)) [
  | inl e ↦ rw e (rw (get_same fs "is_full_duplicate" (bool true)) refl)
  | inr e ↦ rw e (kind_of-partial fs h)
]

mark-alert_hash :
    (last : Option String) (hash : String) (fs : Fields)
    → get_field (mark last hash fs) "alert_hash" ≡ get_field fs "alert_hash"
mark-alert_hash none hash fs = refl
mark-alert_hash (some last) hash fs = elim (Bool-cases (last == hash)) [
  | inl e ↦ rw e (get_other fs "is_full_duplicate" (bool true) "alert_hash" refl)
  | inr e ↦ rw e (get_other fs "is_partial_duplicate" (bool true) "alert_hash" refl)
]

module _ (digest : Fields → String) (given : Option (Dict String)) (stored : Dict String) where
  pub apply_hash-kind :
      (alert : Fields) (hash : String)
      → kind_of alert ≡ no_duplicate
      → kind_of (apply_hash digest given stored alert hash)
        ≡ verdict (hash_of (known_hashes given stored) (get_field alert "fingerprint")) hash
  apply_hash-kind alert hash h = rw (get_other alert "alert_hash" (str hash) "fingerprint" refl) (
      kind_of-mark (hash_of (known_hashes given stored) (get_field alert "fingerprint")) hash _
        (kind_of-hash alert hash ∙ h))

  pub apply_hash-alert_hash :
      (alert : Fields) (hash : String)
      → get_field (apply_hash digest given stored alert hash) "alert_hash" ≡ some (str hash)
  apply_hash-alert_hash alert hash =
      mark-alert_hash _ hash (put_field alert "alert_hash" (str hash))
      ∙ get_same alert "alert_hash" (str hash)

  -- A rule whose ignored fields can be removed marks an alert that no rule has marked yet as a full
  -- duplicate when the last hash of its fingerprint is the new hash, as a partial one when it is
  -- another, and not at all when there is none; the new hash is kept with the alert.
  pub apply_rule-verdict :
      (rule : Rule) (alert copy : Fields)
      → remove_fields rule.ignore_fields alert ≡ ok copy
      → kind_of alert ≡ no_duplicate
      → (final : Fields) × (apply_rule digest given stored rule alert ≡ ok final)
        × (kind_of final
            ≡ verdict
                (hash_of (known_hashes given stored) (get_field alert "fingerprint"))
                (digest copy))
        × (get_field final "alert_hash" ≡ some (str (digest copy)))
  unfolding apply_rule
  apply_rule-verdict rule alert copy e h = (
    apply_hash digest given stored alert (digest copy),
    rw e refl,
    apply_hash-kind alert (digest copy) h,
    apply_hash-alert_hash alert (digest copy),
  )
