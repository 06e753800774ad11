-- ===== src/Dedup/Provisioned.antt =====
-- What the operations on rules leave alone: provisioned rules, and the rules of other tenants.
use keep_api_gateway.Prelude.{
  Bool-cases, inl, inr, String, ◌==◌, eq_refl, Bool, true, false, not, Option, none, some, List, [],
  ◌∷◌, ◌++◌, ◌||◌, ◌≡◌, refl, ◌∙◌, arith, if◌then◌else◌, Result, ok, err, is_infix,
}
use keep_api_gateway.Dedup.{Rule, Raised}
use keep_api_gateway.Dedup.Rules.{
  Row, is_row, filter, Provider, Request, create, update, delete, find, update_row, delete_row,
  guarded, generate_uuid, insert_for, new_row, is_provider, provider_key,
}

abbrev pub is_kept : String → Row → Bool
is_kept tenant_id r = r.rule.is_provisioned || not (r.tenant_id == tenant_id)

-- The calls of the rules' routes by one tenant.
pub data Call : Type 0 where
  creates : (new_id created_by : String) → Request → Call
  updates : (new_id rule_id updated_by : String) → Request → Call
  deletes : (rule_id : String) → Call

unfoldable pub handle :
    (uuid5 : String → String) (providers : List Provider) (tenant_id : String)
    → Call
    → List Row
    → Result Raised (List Row)
unfolding create update delete
handle uuid5 providers tenant_id (creates new_id by q) rows =
    create new_id tenant_id by providers q rows
handle uuid5 providers tenant_id (updates new_id rule_id by q) rows =
    update uuid5 new_id tenant_id rule_id by providers q rows
handle uuid5 providers tenant_id (deletes rule_id) rows = delete tenant_id rule_id rows

-- The table after a call: an exception leaves it as it was.
abbrev pub table_after : List Row → Result Raised (List Row) → List Row
table_after rows (ok changed) = changed
table_after rows (err e) = rows

unfoldable pub handle_all :
    (uuid5 : String → String) (providers : List Provider) (tenant_id : String)
    → List Call
    → List Row
    → List Row
unfolding handle
handle_all uuid5 providers tenant_id [] rows = rows
handle_all uuid5 providers tenant_id (c ∷ cs) rows =
    handle_all uuid5 providers tenant_id cs
      (table_after rows (handle uuid5 providers tenant_id c rows))

filter-if {ℓ} :
    {A : Type ℓ} (p : A → Bool) (b : Bool) (xs ys : List A)
    → filter p (if b then xs else ys) ≡ (if b then filter p xs else filter p ys)
filter-if p true xs ys = refl
filter-if p false xs ys = refl

module _ (tenant_id : String) where
  abbrev NotProvisioned : Option Rule → Type 0
  NotProvisioned none = Unit
  NotProvisioned (some rule) = rule.is_provisioned ≡ false

  NotProvisioned-if :
      (b : Bool) (rule : Rule) (o : Option Rule)
      → NotProvisioned (if b then some rule else o)
      → (b ≡ true → rule.is_provisioned ≡ false) × (b ≡ false → NotProvisioned o)
  NotProvisioned-if true rule o h = (λ e. h, λ e. absurd (cc))
  NotProvisioned-if false rule o h = (λ e. absurd (cc), λ e. h)

  filter-update_row :
      (rule_id by : String) (q : Request) (rows : List Row)
      → NotProvisioned (find tenant_id rule_id rows)
      → filter (is_kept tenant_id) (update_row tenant_id rule_id by q rows)
        ≡ filter (is_kept tenant_id) rows
  unfolding update_row find
  filter-update_row rule_id by q [] h = refl
  filter-update_row rule_id by q (r ∷ rows) h =
      let b = is_row tenant_id rule_id r in
      let n = NotProvisioned-if b r.rule (find tenant_id rule_id rows) h in
      filter-if (is_kept tenant_id) b _ _ ∙ elim (Bool-cases b) [
        | inl e ↦ ground (arith, n.0 e, e)
        | inr e ↦ ground (arith, filter-update_row rule_id by q rows (n.1 e), e)
      ]

  filter-delete_row :
      (rule_id : String) (rows : List Row)
      → NotProvisioned (find tenant_id rule_id rows)
      → filter (is_kept tenant_id) (delete_row tenant_id rule_id rows)
        ≡ filter (is_kept tenant_id) rows
  unfolding delete_row find
  filter-delete_row rule_id [] h = refl
  filter-delete_row rule_id (r ∷ rows) h =
      let b = is_row tenant_id rule_id r in
      let n = NotProvisioned-if b r.rule (find tenant_id rule_id rows) h in
      filter-if (is_kept tenant_id) b _ _ ∙ elim (Bool-cases b) [
        | inl e ↦ ground (arith, n.0 e, e)
        | inr e ↦ ground (arith, filter-delete_row rule_id rows (n.1 e), e)
      ]

  filter-insert :
      (r : Row) (rows : List Row)
      → is_kept tenant_id r ≡ false
      → filter (is_kept tenant_id) (rows ++ r ∷ []) ≡ filter (is_kept tenant_id) rows
  filter-insert r [] h = ground arith
  filter-insert r (s ∷ rows) h = ground (arith, filter-insert r rows h)

  -- What a call that succeeds may do.
  abbrev KeepsRows : List Row → Result Raised (List Row) → Type 0
  KeepsRows rows result =
      filter (is_kept tenant_id) (table_after rows result) ≡ filter (is_kept tenant_id) rows

  guarded-KeepsRows :
      (o : Option Rule) (rows changed : List Row)
      → (NotProvisioned o → filter (is_kept tenant_id) changed ≡ filter (is_kept tenant_id) rows)
      → KeepsRows rows (guarded o changed)
  guarded-KeepsRows none rows changed h = refl
  guarded-KeepsRows (some rule) rows changed h = elim (Bool-cases rule.is_provisioned) [
    | inl e ↦ rw e refl
    | inr e ↦ rw e (h e)
  ]

  KeepsRows-if :
      (b : Bool) (rows : List Row) (r s : Result Raised (List Row))
      → KeepsRows rows r
      → KeepsRows rows s
      → KeepsRows rows (if b then r else s)
  KeepsRows-if true rows r s h k = h
  KeepsRows-if false rows r s h k = k

  insert_for-KeepsRows :
      (key new_id by : String) (id : Option String) (providers : List Provider) (q : Request)
      (rows : List Row)
      → KeepsRows rows (insert_for key new_id tenant_id by id providers q rows)
  insert_for-KeepsRows key new_id by id providers q rows =
      KeepsRows-if (is_provider key providers) rows _ _
        (filter-insert (new_row new_id tenant_id by id q) rows (ground (arith, eq_refl tenant_id)))
        refl

  create-KeepsRows :
      (new_id by : String) (providers : List Provider) (q : Request) (rows : List Row)
      → KeepsRows rows (create new_id tenant_id by providers q rows)
  unfolding create
  create-KeepsRows new_id by providers q rows =
      KeepsRows-if (is_infix "null" (provider_key q)) rows _ _
        (insert_for-KeepsRows _ new_id by none providers q rows)
        (insert_for-KeepsRows (provider_key q) new_id by q.provider_id providers q rows)

  handle-KeepsRows :
      (uuid5 : String → String) (providers : List Provider) (c : Call) (rows : List Row)
      → KeepsRows rows (handle uuid5 providers tenant_id c rows)
  unfolding handle update delete
  handle-KeepsRows uuid5 providers (creates new_id by q) rows =
      create-KeepsRows new_id by providers q rows
  handle-KeepsRows uuid5 providers (updates new_id rule_id by q) rows =
      KeepsRows-if (rule_id == generate_uuid uuid5 q.provider_id (some q.provider_type)) rows _ _
        (create-KeepsRows new_id by providers q rows)
        (guarded-KeepsRows (find tenant_id rule_id rows) rows _
          (filter-update_row rule_id by q rows))
  handle-KeepsRows uuid5 providers (deletes rule_id) rows =
      guarded-KeepsRows (find tenant_id rule_id rows) rows _ (filter-delete_row rule_id rows)

  -- Whatever calls of the rules' routes a tenant makes, the provisioned rules and the rules of the
  -- other tenants stay in the table as they are and in the same order.
  pub handle_all-kept :
      (uuid5 : String → String) (providers : List Provider) (calls : List Call) (rows : List Row)
      → filter (is_kept tenant_id) (handle_all uuid5 providers tenant_id calls rows)
        ≡ filter (is_kept tenant_id) rows
  unfolding handle_all
  handle_all-kept uuid5 providers [] rows = refl
  handle_all-kept uuid5 providers (c ∷ cs) rows =
      handle_all-kept uuid5 providers cs
        (table_after rows (handle uuid5 providers tenant_id c rows))
      ∙ handle-KeepsRows uuid5 providers c rows
