-- ===== src/Incidents/Linked.antt =====
-- Which alerts are linked to an incident after adding.
use keep_api_gateway.Prelude.{
  String, Bool, true, false, not, ◌&&◌, ◌||◌, List, [], ◌∷◌, ◌++◌, ◌==◌, ◌≡◌, ◌∙◌, sym, refl, ap,
  arith, eq_iff, eq_refl, all, contains, if◌then◌else◌, Result, ok, err,
}
use keep_api_gateway.Incidents.{
  LastAlertToIncident, Tables, Failure, key_error, integrity_error, Outcome, linked, unlinked,
  update_incident, has_last_alert, filter, distinct,
}
use keep_api_gateway.Incidents.Summary.{AlertsData, get_alerts_data_for_incident}
use keep_api_gateway.Incidents.Linking.{
  Adding, with_last_alert, is_new, new_fingerprints, new_links, with_links, finish_adding, link_new,
  sum_up_added, add_alerts_to_incident,
}
use keep_api_gateway.Incidents.Counting.{linked-append, append-nil}

pub contains-append :
    (xs ys : List String) (f : String) → contains (xs ++ ys) f ≡ (contains xs f || contains ys f)
contains-append [] ys f = refl
contains-append (x ∷ xs) ys f = ground (arith, contains-append xs ys f)

pub contains-filter :
    (test : String → Bool) (xs : List String) (f : String)
    → contains (filter test xs) f ≡ (contains xs f && test f)
unfolding filter
contains-filter test [] f = refl
contains-filter test (x ∷ xs) f = by_name (x == f) refl (contains-filter test xs f)
  where
    by_name :
        (b : Bool)
        → (x == f) ≡ b
        → contains (filter test xs) f ≡ (contains xs f && test f)
        → contains (if test x then x ∷ filter test xs else filter test xs) f
          ≡ ((b || contains xs f) && test f)
    by_name false e rest = ground (arith, e, rest)
    by_name true e rest = ground (arith, e, rest, ap test ((eq_iff x f).0 e))

pub contains-distinct : (xs : List String) (f : String) → contains (distinct xs) f ≡ contains xs f
unfolding distinct
contains-distinct [] f = refl
contains-distinct (x ∷ xs) f = ground (arith, eq_iff x f, contains-distinct xs f)

linked-new_links :
    (by_ai : Bool) (t i : String) (new : List String) → linked t i (new_links by_ai t i new) ≡ new
unfolding linked new_links
linked-new_links by_ai t i [] = refl
linked-new_links by_ai t i (f ∷ new) =
    rw (eq_refl t) (rw (eq_refl i) (ap (λ x. f ∷ x) (linked-new_links by_ai t i new)))

contains-new_fingerprints :
    (adding : Adding) (t i : String) (fps : List String) (tables : Tables) (f : String)
    → contains (new_fingerprints adding tables t i fps) f
      ≡ (contains fps f && is_new adding tables t i f)
unfolding new_fingerprints
contains-new_fingerprints adding t i fps tables f =
    contains-distinct (filter (is_new adding tables t i) fps) f
    ∙ contains-filter (is_new adding tables t i) fps f

-- Once the summing up returns, it leaves the links.
pub finish_adding-links :
    (adding : Adding) (t i : String) (tables : Tables) (r : Result Failure AlertsData)
    → (finish_adding adding t i tables r).1.links ≡ tables.links
finish_adding-links adding t i tables (err failure) = refl
finish_adding-links adding t i tables (ok alerts_data) = by_flag adding.override_count
  where
    outcome : Bool → Outcome (Unit {0})
    outcome b = if b then (err key_error, tables) else (
      ok tt,
      record tables {
        incidents = update_incident t i (sum_up_added tables t i alerts_data) tables.incidents;
      },
    )

    by_flag : (b : Bool) → (outcome b).1.links ≡ tables.links
    by_flag true = refl
    by_flag false = refl

link_new-links :
    (adding : Adding) (t i : String) (new : List String) (tables : Tables)
    → (link_new adding t i new tables).0 ≡ ok tt
    → linked t i (link_new adding t i new tables).1.links ≡ linked t i tables.links ++ new
unfolding link_new
link_new-links adding t i [] tables e = sym (append-nil (linked t i tables.links))
link_new-links adding t i (f ∷ fs) tables e = by_test (all (has_last_alert tables t) (f ∷ fs)) e
  where
    links : List LastAlertToIncident
    links = tables.links ++ new_links adding.is_created_by_ai t i (f ∷ fs)

    outcome : Bool → Outcome (Unit {0})
    outcome b =
        if b
        then finish_adding adding t i (with_links tables links)
            (get_alerts_data_for_incident (with_links tables links) t (f ∷ fs))
        else (err integrity_error, tables)

    by_test :
        (b : Bool)
        → (outcome b).0 ≡ ok tt
        → linked t i (outcome b).1.links ≡ linked t i tables.links ++ f ∷ fs
    by_test false e = absurd (cc)
    by_test true e =
        ap (linked t i) (
          finish_adding-links adding t i (with_links tables links)
            (get_alerts_data_for_incident (with_links tables links) t (f ∷ fs)))
        ∙ linked-append t i tables.links (new_links adding.is_created_by_ai t i (f ∷ fs))
        ∙ ap (λ x. linked t i tables.links ++ x)
            (linked-new_links adding.is_created_by_ai t i (f ∷ fs))

absorb :
    (there known asked wanted : Bool)
    → (there || (asked && (not (there && known) && wanted))) ≡ (there || (asked && wanted))
absorb true known asked wanted = refl
absorb false known asked wanted = refl

-- A fingerprint that the call leaves out: one that was unlinked, where those are excluded.
abbrev pub is_left_out : Adding → Tables → (t i f : String) → Bool
is_left_out adding tables t i f =
    adding.exclude_unlinked_alerts
    && contains (with_last_alert tables t (unlinked t i tables.links)) f

-- When adding alerts to an incident returns, the alerts linked to it are those that were and those that
-- were asked for, but for alerts that were unlinked before where the call excludes these.
pub add_alerts_to_incident-linked :
    (adding : Adding) (t i : String) (fps : List String) (tables : Tables)
    → (add_alerts_to_incident adding t i fps tables).0 ≡ ok tt
    → (f : String)
    → contains (linked t i (add_alerts_to_incident adding t i fps tables).1.links) f ≡ (
        contains (linked t i tables.links) f
        || (contains fps f && not (is_left_out adding tables t i f)))
unfolding add_alerts_to_incident
add_alerts_to_incident-linked adding t i fps tables e f =
    let new = new_fingerprints adding tables t i fps in
    ap (λ x. contains x f) (link_new-links adding t i new tables e)
    ∙ contains-append (linked t i tables.links) new f
    ∙ ap (λ x. contains (linked t i tables.links) f || x)
        (contains-new_fingerprints adding t i fps tables f)
    ∙ ap
        (λ x.
          contains (linked t i tables.links) f
          || (contains fps f && (not x && not (is_left_out adding tables t i f))))
        (contains-filter (has_last_alert tables t) (linked t i tables.links) f)
    ∙ absorb (contains (linked t i tables.links) f) (has_last_alert tables t f) (contains fps f)
        (not (is_left_out adding tables t i f))
