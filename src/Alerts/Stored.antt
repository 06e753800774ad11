-- ===== src/Alerts/Stored.antt =====
-- The row of a fingerprint after an enrichment, and the other rows.
use keep_api_gateway.Prelude.{
  String, true, false, ◌&&◌, Option, none, some, List, [], ◌∷◌, ◌==◌, ◌≡◌, subst, refl, ap, arith,
  eq_iff, Result, ok, err, bind-ok,
}
use keep_api_gateway.Prelude.Dict
use keep_api_gateway.Prelude.Dict.{Dict}
use keep_api_gateway.Prelude.Json.{Json}
use keep_api_gateway.Alerts.{LastAlert, column}
use keep_api_gateway.Alerts.Normalize.{Refusal, normalize_enrichments}
use keep_api_gateway.Alerts.Enrich.{
  apply_enrichments, Call, Store, is_row, find_row, update_row, write, enrich_entity,
}
use keep_api_gateway.Alerts.Written.{
  is_dict, overlay, is_row-apply_enrichments, column-apply_enrichments,
}
use keep_api_gateway.Alerts.Dicts.{normalize_enrichments-is_dict}

abbrev pub map_row : (LastAlert → LastAlert) → Option LastAlert → Option LastAlert
map_row change none = none
map_row change (some row) = some (change row)

pub find_row-update_row :
    (t f : String) (change : LastAlert → LastAlert)
    → ((row : LastAlert) → is_row t f (change row) ≡ is_row t f row)
    → (rows : List LastAlert)
    → find_row t f (update_row t f change rows) ≡ map_row change (find_row t f rows)
unfolding find_row update_row
find_row-update_row t f change same [] = refl
find_row-update_row t f change same (row ∷ rows) =
    ground (arith, same row, find_row-update_row t f change same rows)

-- A row that does not have the key is found as before.
pub find_row-update_row_other :
    (t f u g : String) (change : LastAlert → LastAlert)
    → ((row : LastAlert) → is_row u g (change row) ≡ is_row u g row)
    → (t == u && f == g) ≡ false
    → (rows : List LastAlert) → find_row u g (update_row t f change rows) ≡ find_row u g rows
unfolding find_row update_row
find_row-update_row_other t f u g change same differ [] = refl
find_row-update_row_other t f u g change same differ (row ∷ rows) = ground (
  arith,
  same row,
  eq_iff row.tenant_id t,
  eq_iff row.tenant_id u,
  eq_iff row.fingerprint f,
  eq_iff row.fingerprint g,
  eq_iff t u,
  eq_iff f g,
  find_row-update_row_other t f u g change same differ rows,
)

update_row-missing :
    (t f : String) (change : LastAlert → LastAlert) (rows : List LastAlert)
    → find_row t f rows ≡ none
    → update_row t f change rows ≡ rows
unfolding find_row update_row
update_row-missing t f change [] h = refl
update_row-missing t f change (row ∷ rows) h = ground (arith, h, update_row-missing t f change rows)

-- What an enrichment with the normalized keys `d` makes of the row of its fingerprint: every column
-- holds the value given for it, but for a blank note that is not forced, and a column that is not given
-- is left.
abbrev pub IsEnriched : Call → Dict Json → Option LastAlert → Option LastAlert → Type 0
IsEnriched call d none after = after ≡ none
IsEnriched call d (some row) after =
    (found : LastAlert) × (after ≡ some found)
    × ((key : String) → column found key ≡ overlay call.force key (Dict.get d key) (column row key))

enriched :
    (call : Call) (d : Dict Json) (o : Option LastAlert)
    → is_dict d ≡ true
    → IsEnriched call d o (map_row (apply_enrichments call.force d) o)
enriched call d none h = refl
enriched call d (some row) h = (
  apply_enrichments call.force d row,
  refl,
  λ key. column-apply_enrichments call.force key d row h,
)

write-IsEnriched :
    (call : Call) (d : Dict Json) (f : String) (s : Store)
    → is_dict d ≡ true
    → IsEnriched call d
        (find_row call.tenant_id f s.last_alerts)
        (find_row call.tenant_id f (write call d f s).last_alerts)
unfolding write
write-IsEnriched call d f s h =
    rw
      (find_row-update_row call.tenant_id f (apply_enrichments call.force d)
        (is_row-apply_enrichments call.tenant_id f call.force d) s.last_alerts)
      (enriched call d (find_row call.tenant_id f s.last_alerts) h)

write-other :
    (call : Call) (d : Dict Json) (f u g : String) (s : Store)
    → (call.tenant_id == u && f == g) ≡ false
    → find_row u g (write call d f s).last_alerts ≡ find_row u g s.last_alerts
unfolding write
write-other call d f u g s differ =
    find_row-update_row_other call.tenant_id f u g (apply_enrichments call.force d)
      (is_row-apply_enrichments u g call.force d) differ s.last_alerts

-- An enrichment that is accepted and whose keys differ writes what its normalized form gives,
-- column by column, to the row of its fingerprint, but for a blank note that is not forced; without
-- such a row there is none afterwards; and the row of every other tenant or fingerprint stays.
pub enrich_entity-IsEnriched :
    (call : Call) (enrichments : Dict Json) (f : String) (s after : Store)
    → is_dict enrichments ≡ true
    → enrich_entity call enrichments f s ≡ ok after
    → (d : Dict Json) × (normalize_enrichments call.strict enrichments ≡ ok d)
      × IsEnriched call d
          (find_row call.tenant_id f s.last_alerts)
          (find_row call.tenant_id f after.last_alerts)
      × ((u g : String)
          → (call.tenant_id == u && f == g) ≡ false
          → find_row u g after.last_alerts ≡ find_row u g s.last_alerts)
unfolding enrich_entity
enrich_entity-IsEnriched call enrichments f s after distinct h =
    let (d, normalized, written) =
      bind-ok (normalize_enrichments call.strict enrichments) (λ d. ok (write call d f s)) after
        h in
    let e : write call d f s ≡ after = ap store_of written in
    let given = normalize_enrichments-is_dict call.strict enrichments d distinct normalized in
    (
      d,
      normalized,
      subst
          (λ x.
            IsEnriched call d (find_row call.tenant_id f s.last_alerts)
              (find_row call.tenant_id f x.last_alerts))
          e (write-IsEnriched call d f s given),
      λ u g differ.
          subst (λ x. find_row u g x.last_alerts ≡ find_row u g s.last_alerts) e
            (write-other call d f u g s differ),
    )
  where
    store_of : Result Refusal Store → Store
    store_of (ok x) = x
    store_of (err refusal) = s
