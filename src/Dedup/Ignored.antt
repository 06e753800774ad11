-- ===== src/Dedup/Ignored.antt =====
-- What the ignored fields are for, and what a field of three parts does.
use keep_api_gateway.Prelude.{
  String, ◌==◌, eq_iff, eq_refl, true, Option, none, some, List, [], ◌∷◌, ◌≡◌, refl, ap, ◌∙◌, sym,
  arith, Bool-cases, inl, inr, Result, ok, err, ◌>>=◌, contains, split,
}
use keep_api_gateway.Prelude.Dict.{Dict}
use keep_api_gateway.Prelude.Json.{
  Json, str, obj, Fields, get_field, put_field, remove_key, get_field-put_field,
  remove_key-put_field, remove_key-put_field_other, put_field-put_field,
}
use keep_api_gateway.Dedup.{
  Rule, Raised, full, no_duplicate, kind_of, hash_of, known_hashes, apply_hash, apply_rule,
  remove_field, remove_fields, remove_parts, delete_path,
}
use keep_api_gateway.Dedup.Verdict.{verdict, apply_hash-kind, apply_hash-alert_hash}

-- Names of attributes, without a dot.
abbrev pub AllPlain : List String → Type 0
AllPlain [] = Unit
AllPlain (f ∷ fs) = (split b'.' f ≡ f ∷ []) × AllPlain fs

remove_field-plain :
    (f : String) (alert : Fields)
    → split b'.' f ≡ f ∷ []
    → remove_field f alert ≡ ok (remove_key alert f)
unfolding remove_field
remove_field-plain f alert e = rw e refl

remove_key-put_same :
    (f : String) (alert : Fields) (k : String) (v : Json)
    → (f == k) ≡ true
    → remove_key (put_field alert k v) f ≡ remove_key alert f
remove_key-put_same f alert k v e =
    let q : f ≡ k = (eq_iff f k).0 e in
    ap (remove_key (put_field alert k v)) q
    ∙ remove_key-put_field alert k v
    ∙ ap (remove_key alert) (sym q)

pub remove_fields-put_field :
    (fs : List String) (alert : Fields) (k : String) (v : Json)
    → AllPlain fs
    → contains fs k ≡ true
    → remove_fields fs (put_field alert k v) ≡ remove_fields fs alert
unfolding remove_fields
remove_fields-put_field [] alert k v p h = absurd (cc)
remove_fields-put_field (f ∷ fs) alert k v p h =
    rw (remove_field-plain f (put_field alert k v) p.0) (
      rw (remove_field-plain f alert p.0) (elim (Bool-cases (f == k)) [
        | inl e ↦ ap (remove_fields fs) (remove_key-put_same f alert k v e)
        | inr e ↦
            ap (remove_fields fs) (remove_key-put_field_other alert k v f e)
            ∙ remove_fields-put_field fs (remove_key alert f) k v p.1 (ground (arith, h, e))
      ]))

abbrev pub text_of : Option Json → Option String
text_of (some (str t)) = some t
text_of _ = none

ok_same : (x y : Fields) → ◌≡◌ {A = Result Raised Fields} (ok x) (ok y) → x ≡ y
ok_same x y e = cc

same_hash : (hash : String) → verdict (some hash) hash ≡ full
same_hash hash = rw (eq_refl hash) refl

abbrev pub IsFull : Result Raised Fields → Type 0
IsFull (ok final) = kind_of final ≡ full
IsFull (err e) = ⊥

module _ (digest : Fields → String) (given : Option (Dict String)) (stored : Dict String)
    (given_later : Option (Dict String)) (stored_later : Dict String) where
  redelivered-IsFull :
      (removed : Result Raised Fields) (alert again saved : Fields)
      → (removed >>= λ copy. ok (apply_hash digest given stored alert (digest copy))) ≡ ok saved
      → hash_of (known_hashes given_later stored_later) (get_field alert "fingerprint")
        ≡ text_of (get_field saved "alert_hash")
      → get_field again "fingerprint" ≡ get_field alert "fingerprint"
      → kind_of again ≡ no_duplicate
      → IsFull
          (removed >>= λ copy. ok (apply_hash digest given_later stored_later again (digest copy)))
  redelivered-IsFull (err e) alert again saved a l f n = absurd (cc)
  redelivered-IsFull (ok copy) alert again saved a l f n =
      let s : apply_hash digest given stored alert (digest copy) ≡ saved = ok_same _ _ a in
      let h = ap (λ x. text_of (get_field x "alert_hash")) s in
      let g = ap text_of (apply_hash-alert_hash digest given stored alert (digest copy)) in
      apply_hash-kind digest given_later stored_later again (digest copy) n
      ∙ ap (λ x. verdict (hash_of (known_hashes given_later stored_later) x) (digest copy)) f
      ∙ ap (λ x. verdict x (digest copy)) (l ∙ sym h ∙ g)
      ∙ same_hash (digest copy)

  -- An alert is processed by a rule whose ignored fields are plain attributes, and the hash it got is
  -- the last one of its fingerprint. Then the same alert, not marked yet, with any other value of an
  -- ignored attribute that takes no part in the marking is a full duplicate.
  pub apply_rule-redelivered :
      (rule : Rule) (alert saved : Fields) (k : String) (v : Json)
      → AllPlain rule.ignore_fields
      → contains rule.ignore_fields k ≡ true
      → apply_rule digest given stored rule alert ≡ ok saved
      → hash_of (known_hashes given_later stored_later) (get_field alert "fingerprint")
        ≡ text_of (get_field saved "alert_hash")
      → get_field (put_field alert k v) "fingerprint" ≡ get_field alert "fingerprint"
      → kind_of (put_field alert k v) ≡ no_duplicate
      → IsFull (apply_rule digest given_later stored_later rule (put_field alert k v))
  unfolding apply_rule
  apply_rule-redelivered rule alert saved k v p c a l f n =
      rw (remove_fields-put_field rule.ignore_fields alert k v p c) (
        redelivered-IsFull (remove_fields rule.ignore_fields alert) alert (put_field alert k v)
          saved a l f n)

bind_same :
    (r : Result Raised Json) (alert : Fields) (name : String) (v : Json)
    → (r >>= λ d. ok (put_field (put_field alert name v) name d))
      ≡ (r >>= λ d. ok (put_field alert name d))
bind_same (err e) alert name v = refl
bind_same (ok d) alert name v = ap ok (put_field-put_field alert name v d)

remove_parts-inner :
    (name part last : String) (alert siblings : Fields) (inner : Json)
    → get_field siblings part ≡ some inner
    → remove_parts (name ∷ part ∷ last ∷ []) (put_field alert name (obj siblings))
      ≡ (delete_path (last ∷ []) inner >>= λ d. ok (put_field alert name d))
unfolding delete_path
remove_parts-inner name part last alert siblings inner s =
    let g : get_field (put_field alert name (obj siblings)) name ≡ some (obj siblings) =
      get_field-put_field alert name (obj siblings) name ∙ rw (eq_refl name) refl in
    rw g (rw (s, delete_path) (bind_same (delete_path (last ∷ []) inner) alert name (obj siblings)))

-- Two alerts that agree outside the attribute `name`, and whose attribute is a dict with the same entry
-- `part`, are left with the same fields when `name.part.last` is removed, whatever else the two dicts
-- hold.
remove_parts-forgets :
    (name part last : String) (alert siblings others : Fields) (inner : Json)
    → get_field siblings part ≡ some inner
    → get_field others part ≡ some inner
    → remove_parts (name ∷ part ∷ last ∷ []) (put_field alert name (obj siblings))
      ≡ remove_parts (name ∷ part ∷ last ∷ []) (put_field alert name (obj others))
remove_parts-forgets name part last alert siblings others inner s o =
    remove_parts-inner name part last alert siblings inner s
    ∙ sym (remove_parts-inner name part last alert others inner o)
