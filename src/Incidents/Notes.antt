-- ===== src/Incidents/Notes.antt =====
-- The enrichments of an incident after it was enriched again, its note among them.
use keep_api_gateway.Prelude.{
  String, Bool, true, false, ◌&&◌, Option, none, some, [], ◌∷◌, ◌==◌, ◌≡◌, ◌∙◌, subst, refl, ap,
  arith, eq_iff, if◌then◌else◌,
}
use keep_api_gateway.Prelude.Dict
use keep_api_gateway.Prelude.Dict.{Dict, get-put, get-remove}
use keep_api_gateway.Prelude.Json.{Json}
use keep_api_gateway.Alerts.{or_null, truthy}
use keep_api_gateway.Alerts.Normalize.{has_key, is_null}
use keep_api_gateway.Alerts.Written.{is_dict, absent}
use keep_api_gateway.Incidents.Enrichment.{
  put_all, is_no_note, keep_note, drop_nulls, new_enrichment_data,
}

-- A value that may be given, or what was there.
abbrev or_old : Option Json → Option Json → Option Json
or_old none old = old
or_old (some v) old = some v

-- What is left once a value that may be given took the key out, if it was None.
abbrev unless_null : Option Json → Option Json → Option Json
unless_null none old = old
unless_null (some v) old = if is_null v then none else old

get-put_all :
    (key : String) (new old : Dict Json)
    → is_dict new ≡ true
    → Dict.get (put_all new old) key ≡ or_old (Dict.get new key) (Dict.get old key)
unfolding put_all is_dict Dict.get
get-put_all key [] old h = refl
get-put_all key ((k, v) ∷ new) old h =
    get-put_all key new (Dict.put old k v) (ground (arith, h))
    ∙ rw (get-put k key v old) (by_name (k == key) refl)
  where
    by_name :
        (b : Bool)
        → (k == key) ≡ b
        → or_old (Dict.get new key) (if b then some v else Dict.get old key)
          ≡ or_old (if b then some v else Dict.get new key) (Dict.get old key)
    by_name false e = refl
    by_name true e =
        let same_name : k ≡ key = (eq_iff k key).0 e in
        rw (absent new key (subst (λ x. has_key new x ≡ false) same_name (ground (arith, h)))) refl

get-drop_nulls :
    (key : String) (new merged : Dict Json)
    → is_dict new ≡ true
    → Dict.get (drop_nulls new merged) key ≡ unless_null (Dict.get new key) (Dict.get merged key)
unfolding drop_nulls is_dict Dict.get
get-drop_nulls key [] merged h = refl
get-drop_nulls key ((k, v) ∷ new) merged h =
    get-drop_nulls key new (if is_null v then Dict.remove merged k else merged) (ground (arith, h))
    ∙ by_name (k == key) refl (is_null v) refl (get-remove k key merged)
  where
    missing : (k == key) ≡ true → Dict.get new key ≡ none
    missing e =
        absent new key (subst (λ x. has_key new x ≡ false) ((eq_iff k key).0 e) (ground (arith, h)))

    by_name :
        (b : Bool)
        → (k == key) ≡ b
        → (n : Bool) → is_null v ≡ n
        → Dict.get (Dict.remove merged k) key ≡ (if b then none else Dict.get merged key)
        → unless_null (Dict.get new key) (Dict.get (if n then Dict.remove merged k else merged) key)
          ≡ unless_null (if b then some v else Dict.get new key) (Dict.get merged key)
    by_name false e true null_v r = ap (unless_null (Dict.get new key)) r
    by_name false e false null_v r = refl
    by_name true e true null_v r = rw (missing e) (rw null_v r)
    by_name true e false null_v r = rw (missing e) (rw null_v refl)

get-keep_note :
    (key : String) (old new merged : Dict Json)
    → Dict.get (keep_note old new merged) key ≡ (
        if key == "note"
          && (is_no_note (or_null (Dict.get new "note")) && truthy (or_null (Dict.get old "note")))
        then some (or_null (Dict.get old "note"))
        else Dict.get merged key)
unfolding keep_note
get-keep_note key old new merged =
    by_test (is_no_note (or_null (Dict.get new "note")) && truthy (or_null (Dict.get old "note")))
      (key == "note") refl
  where
    note : Json
    note = or_null (Dict.get old "note")

    by_test :
        (b same : Bool)
        → (key == "note") ≡ same
        → Dict.get (if b then Dict.put merged "note" note else merged) key
          ≡ (if same && b then some note else Dict.get merged key)
    by_test true same e =
        get-put "note" key note merged ∙ ground (arith, e, eq_iff "note" key, eq_iff key "note")
    by_test false true e = refl
    by_test false false e = refl

-- What `keep_note` leaves of a key, from the values old and new.
abbrev kept_value : (same : Bool) → (given old : Option Json) → Option Json
kept_value same given old =
    if same && (is_no_note (or_null given) && truthy (or_null old))
    then some (or_null old)
    else or_old given old

-- The value of a key after an enrichment that is not forced: a key that is not given stays, one that is
-- given None goes, and a note that says nothing gives way to a note that was there.
abbrev pub merged_value : (same : Bool) → (given old : Option Json) → Option Json
merged_value same none old = old
merged_value same (some v) old =
    if is_null v
    then none
    else if same && (is_no_note v && truthy (or_null old))
    then old
    else some v

kept-merged_value :
    (same : Bool) (given old : Option Json)
    → unless_null given (kept_value same given old) ≡ merged_value same given old
kept-merged_value true none none = refl
kept-merged_value true none (some w) = by_test (truthy w)
  where
    by_test : (b : Bool) → (if b then some w else some w) ≡ some w
    by_test true = refl
    by_test false = refl
kept-merged_value false none old = refl
kept-merged_value true (some v) none = by_test (is_no_note v)
  where
    by_test :
        (b : Bool)
        → (if is_null v then none else (if b && false then some Json.null else some v))
          ≡ (if is_null v then none else (if b && false then none else some v))
    by_test true = refl
    by_test false = refl
kept-merged_value true (some v) (some w) = refl
kept-merged_value false (some v) old = refl

keep_note-kept_value :
    (key : String) (old new : Dict Json)
    → is_dict new ≡ true
    → Dict.get (keep_note old new (put_all new old)) key
      ≡ kept_value (key == "note") (Dict.get new key) (Dict.get old key)
keep_note-kept_value key old new h =
    get-keep_note key old new (put_all new old)
    ∙ by_name (key == "note") refl (get-put_all key new old h)
  where
    by_name :
        (b : Bool)
        → (key == "note") ≡ b
        → Dict.get (put_all new old) key ≡ or_old (Dict.get new key) (Dict.get old key)
        → (if b
              && (is_no_note (or_null (Dict.get new "note"))
                  && truthy (or_null (Dict.get old "note")))
            then some (or_null (Dict.get old "note"))
            else Dict.get (put_all new old) key)
          ≡ kept_value b (Dict.get new key) (Dict.get old key)
    by_name false e r = r
    by_name true e r =
        let same_name : key ≡ "note" = (eq_iff key "note").0 e in
        rw r (
          subst
            (λ x.
              (if is_no_note (or_null (Dict.get new x)) && truthy (or_null (Dict.get old x))
                then some (or_null (Dict.get old x))
                else or_old (Dict.get new key) (Dict.get old key))
              ≡ kept_value true (Dict.get new key) (Dict.get old key))
            same_name refl)

-- When an incident that has enrichments is enriched without force by a dict whose keys differ, a
-- key that is not given stays, a key that is given None goes, the note too, and any other is set,
-- but for a note that is falsy or white space, which gives way to a note that was there.
pub get-new_enrichment_data :
    (key : String) (old new : Dict Json)
    → is_dict new ≡ true
    → Dict.get (new_enrichment_data false old new) key
      ≡ merged_value (key == "note") (Dict.get new key) (Dict.get old key)
unfolding new_enrichment_data
get-new_enrichment_data key old new h =
    get-drop_nulls key new (keep_note old new (put_all new old)) h
    ∙ ap (unless_null (Dict.get new key)) (keep_note-kept_value key old new h)
    ∙ kept-merged_value (key == "note") (Dict.get new key) (Dict.get old key)
