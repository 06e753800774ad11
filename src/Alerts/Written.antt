-- ===== src/Alerts/Written.antt =====
-- What an enrichment leaves in the table of the last alerts.
use keep_api_gateway.Prelude.{
  String, Bool, true, false, not, ◌&&◌, Option, none, some, [], ◌∷◌, ◌==◌, ◌≡◌, ◌∙◌, subst, refl,
  ap, arith, eq_iff, if◌then◌else◌,
}
use keep_api_gateway.Prelude.Dict
use keep_api_gateway.Prelude.Dict.{Dict, get-put}
use keep_api_gateway.Prelude.Json.{Json}
use keep_api_gateway.Alerts.{LastAlert, column, set_column, or_null}
use keep_api_gateway.Alerts.Normalize.{is_some, has_key}
use keep_api_gateway.Alerts.Enrich.{is_kept, write_column, apply_enrichments, is_row}

-- The keys of a dict differ.
unfoldable pub is_dict : Dict Json → Bool
is_dict [] = true
is_dict ((key, v) ∷ d) = not (has_key d key) && is_dict d

-- The value of a column once an optional new value was written.
abbrev pub overlay : Bool → String → Option Json → Json → Json
overlay force key none old = old
overlay force key (some v) old = if is_kept force key v then old else v

pub absent : (d : Dict Json) (key : String) → has_key d key ≡ false → Dict.get d key ≡ none
absent d key h = by_found (Dict.get d key) h
  where
    by_found : (o : Option Json) → is_some o ≡ false → o ≡ none
    by_found none k = refl
    by_found (some v) k = absurd (cc)

same_key :
    (t f : String) (force : Bool) (key : String) (v : Json) (row : LastAlert)
    → is_row t f (write_column force key v row) ≡ is_row t f row
unfolding write_column
same_key t f force key v row = ground arith

pub is_row-apply_enrichments :
    (t f : String) (force : Bool) (d : Dict Json) (row : LastAlert)
    → is_row t f (apply_enrichments force d row) ≡ is_row t f row
unfolding apply_enrichments
is_row-apply_enrichments t f force [] row = refl
is_row-apply_enrichments t f force ((key, v) ∷ d) row =
    is_row-apply_enrichments t f force d (write_column force key v row)
    ∙ same_key t f force key v row

column-write_column :
    (force : Bool) (k : String) (v : Json) (row : LastAlert) (key : String)
    → column (write_column force k v row) key
      ≡ (if k == key then overlay force k (some v) (column row key) else column row key)
unfolding write_column
column-write_column force k v row key =
    by_guard (is_kept force k v) (k == key) (get-put k key v row.columns)
  where
    by_guard :
        (guarded same : Bool)
        → Dict.get (Dict.put row.columns k v) key
          ≡ (if same then some v else Dict.get row.columns key)
        → column (if guarded then row else set_column row k v) key
          ≡ (if same then if guarded then column row key else v else column row key)
    by_guard true true e = refl
    by_guard true false e = refl
    by_guard false true e = ap or_null e
    by_guard false false e = ap or_null e

pub column-apply_enrichments :
    (force : Bool) (key : String) (d : Dict Json) (row : LastAlert)
    → is_dict d ≡ true
    → column (apply_enrichments force d row) key
      ≡ overlay force key (Dict.get d key) (column row key)
unfolding apply_enrichments is_dict Dict.get
column-apply_enrichments force key [] row h = refl
column-apply_enrichments force key ((k, v) ∷ d) row h =
    column-apply_enrichments force key d (write_column force k v row) (ground (arith, h))
    ∙ rw (column-write_column force k v row key) (once (k == key) refl)
  where
    once :
        (same : Bool)
        → (k == key) ≡ same
        → overlay force key
            (Dict.get d key)
            (if same then overlay force k (some v) (column row key) else column row key)
          ≡ overlay force key (if same then some v else Dict.get d key) (column row key)
    once false e = refl
    once true e =
        let same_name : k ≡ key = (eq_iff k key).0 e in
        rw (absent d key (subst (λ x. has_key d x ≡ false) same_name (ground (arith, h))))
          (ap (λ x. if is_kept force x v then column row key else v) same_name)
