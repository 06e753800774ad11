-- ===== src/Incidents/Batch.antt =====
-- The rows of alerts, as far as their statuses are read, after a batch of enrichments with a status.
use keep_api_gateway.Prelude.{
  String, Bool, true, false, ◌||◌, Option, none, some, List, [], ◌∷◌, ◌==◌, ◌≡◌, ◌∙◌, refl, ap,
  eq_iff, eq_refl, contains, if◌then◌else◌, ok,
}
use keep_api_gateway.Prelude.Dict
use keep_api_gateway.Prelude.Dict.{Dict, get-put}
use keep_api_gateway.Prelude.Json.{Json}
use keep_api_gateway.Prelude.Json.Json.{str}
use keep_api_gateway.Alerts.{LastAlert, column, or_null}
use keep_api_gateway.Alerts.Normalize.{
  normalize_enrichments, translate, translate_by, unknown_keys, is_column,
}
use keep_api_gateway.Alerts.Enrich.{
  write_column, apply_enrichments, Call, find_row, write_rows, batch_rows,
}
use keep_api_gateway.Alerts.Written.{is_row-apply_enrichments}
use keep_api_gateway.Alerts.Stored.{map_row, find_row-update_row, find_row-update_row_other}

abbrev pub status_only : String → Dict Json
status_only status = ("status", str status) ∷ []

pub normalize_enrichments-status :
    (strict : Bool) (w : String) → normalize_enrichments strict (status_only w) ≡ ok (status_only w)
unfolding normalize_enrichments translate translate_by unknown_keys is_column Dict.get
normalize_enrichments-status strict w = refl

-- What the check reads of a row: the alert it points to, and its status.
abbrev pub seen : Option LastAlert → Option (String × Json)
seen none = none
seen (some row) = some (row.alert_id, column row "status")

abbrev pub re_status : String → Option (String × Json) → Option (String × Json)
re_status w none = none
re_status w (some (id, old)) = some (id, str w)

seen-map_row :
    (w : String) (o : Option LastAlert)
    → seen (map_row (apply_enrichments false (status_only w)) o) ≡ re_status w (seen o)
unfolding apply_enrichments write_column
seen-map_row w none = refl
seen-map_row w (some row) =
    ap (λ x. some (row.alert_id, or_null x)) (get-put "status" "status" (str w) row.columns)

seen-write_rows :
    (call : Call) (w g f : String) (rows : List LastAlert)
    → seen (find_row call.tenant_id f (write_rows call false (status_only w) g rows)) ≡ (
        if g == f
        then re_status w (seen (find_row call.tenant_id f rows))
        else seen (find_row call.tenant_id f rows))
seen-write_rows call w g f rows = by_name (g == f) refl
  where
    change : LastAlert → LastAlert
    change = apply_enrichments false (status_only w)

    by_name :
        (b : Bool)
        → (g == f) ≡ b
        → seen (find_row call.tenant_id f (write_rows call false (status_only w) g rows)) ≡ (
            if b
            then re_status w (seen (find_row call.tenant_id f rows))
            else seen (find_row call.tenant_id f rows))
    by_name true e =
        ap (λ x. seen (find_row call.tenant_id f (write_rows call false (status_only w) x rows)))
          ((eq_iff g f).0 e)
        ∙ ap seen (
            find_row-update_row call.tenant_id f change
              (is_row-apply_enrichments call.tenant_id f false (status_only w)) rows)
        ∙ seen-map_row w (find_row call.tenant_id f rows)
    by_name false e = ap seen (
        find_row-update_row_other call.tenant_id g call.tenant_id f change
          (is_row-apply_enrichments call.tenant_id f false (status_only w))
          (rw (eq_refl call.tenant_id) e) rows)

re_status_again :
    (w : String) (o : Option (String × Json)) → re_status w (re_status w o) ≡ re_status w o
re_status_again w none = refl
re_status_again w (some (id, old)) = refl

pub seen-batch_rows :
    (call : Call) (w f : String) (fs : List String) (rows : List LastAlert)
    → seen (find_row call.tenant_id f (batch_rows call (status_only w) fs rows)) ≡ (
        if contains fs f
        then re_status w (seen (find_row call.tenant_id f rows))
        else seen (find_row call.tenant_id f rows))
unfolding batch_rows
seen-batch_rows call w f [] rows = refl
seen-batch_rows call w f (g ∷ fs) rows =
    seen-batch_rows call w f fs (write_rows call false (status_only w) g rows)
    ∙ rw (seen-write_rows call w g f rows) (by_tests (g == f) (contains fs f))
  where
    by_tests :
        (same later : Bool)
        → (if later
            then re_status w (
                if same
                then re_status w (seen (find_row call.tenant_id f rows))
                else seen (find_row call.tenant_id f rows))
            else if same
            then re_status w (seen (find_row call.tenant_id f rows))
            else seen (find_row call.tenant_id f rows))
          ≡ (if same || later
              then re_status w (seen (find_row call.tenant_id f rows))
              else seen (find_row call.tenant_id f rows))
    by_tests true true = re_status_again w (seen (find_row call.tenant_id f rows))
    by_tests true false = refl
    by_tests false true = refl
    by_tests false false = refl
