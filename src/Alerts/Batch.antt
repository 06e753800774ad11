-- ===== src/Alerts/Batch.antt =====
-- Enriching many alerts at once against enriching them one by one, and what is sent against what is
-- stored.
use keep_api_gateway.Prelude.{
  String, Bool, true, false, ◌||◌, none, some, List, [], ◌∷◌, ◌++◌, ◌≡◌, ◌∙◌, sym, refl, ap,
  if◌then◌else◌, Result, ok, err, ◌>>=◌, bind-ok,
}
use keep_api_gateway.Prelude.Dict
use keep_api_gateway.Prelude.Dict.{Dict, get-put}
use keep_api_gateway.Prelude.Json.{Json}
use keep_api_gateway.Prelude.Json.Json.{bool}
use keep_api_gateway.Alerts.Normalize.{Refusal, has_key, normalize_enrichments}
use keep_api_gateway.Alerts.Settled.{is_mixed, normalize_enrichments-again}
use keep_api_gateway.Alerts.Enrich.{
  apply_enrichments, AlertAudit, Call, Store, find_row, write, audit_of, batch_rows, batch_audits,
  batch_enrich, enrich_entity, apply_dispose_on_new_alert, Sent, enrich_entity_impl, enrich_each,
}
use keep_api_gateway.Alerts.Written.{is_row-apply_enrichments}
use keep_api_gateway.Alerts.Stored.{map_row, find_row-update_row}

append-nil : (xs : List AlertAudit) → xs ++ [] ≡ xs
append-nil [] = refl
append-nil (x ∷ xs) = ap (λ ys. x ∷ ys) (append-nil xs)

append_assoc : (xs ys zs : List AlertAudit) → (xs ++ ys) ++ zs ≡ xs ++ (ys ++ zs)
append_assoc [] ys zs = refl
append_assoc (x ∷ xs) ys zs = ap (λ ws. x ∷ ws) (append_assoc xs ys zs)

-- `status_disposable` does not make enrichments mixed.
is_mixed-apply_dispose_on_new_alert :
    (enrichments : Dict Json) (dispose : Bool)
    → is_mixed (apply_dispose_on_new_alert enrichments dispose) ≡ is_mixed enrichments
unfolding apply_dispose_on_new_alert
is_mixed-apply_dispose_on_new_alert d dispose =
    by_test (has_key d "status" || has_key d "dismiss_mode")
  where
    by_test :
        (b : Bool)
        → is_mixed (if b then Dict.put d "status_disposable" (bool dispose) else d) ≡ is_mixed d
    by_test true = simp (get-put)
    by_test false = refl

write_all : Call → Dict Json → List String → Store → Store
write_all call d [] s = s
write_all call d (f ∷ fs) s = write_all call d fs (write call d f s)

written_at_once :
    (call : Call) (d : Dict Json) (fs : List String) (s : Store)
    → call.force ≡ false
    → write_all call d fs s ≡ record {
      last_alerts = batch_rows call d fs s.last_alerts;
      audits = s.audits ++ batch_audits call fs;
    }
unfolding write_all write batch_rows batch_audits
written_at_once call d [] s h =
    ap (λ x. record { last_alerts = s.last_alerts; audits = x }) (sym (append-nil s.audits))
written_at_once call d (f ∷ fs) s h =
    written_at_once call d fs (write call d f s) h
    ∙ rw h (rw (append_assoc s.audits (audit_of call f) (batch_audits call fs)) refl)

one_enriched :
    (call : Call) (dispose : Bool) (enrichments d : Dict Json)
    → is_mixed enrichments ≡ false
    → normalize_enrichments call.strict (apply_dispose_on_new_alert enrichments dispose) ≡ ok d
    → (produce should : Bool) (f : String) (s : Store)
    → enrich_entity_impl call dispose produce should enrichments f s
      ≡ ok (
        record {
          event = if produce then some d else none;
          elastic = if should then some d else none;
        },
        write call d f s,
      )
unfolding enrich_entity_impl enrich_entity
one_enriched call dispose enrichments d plain e produce should f s =
    let again =
      normalize_enrichments-again call.strict call.strict
        (apply_dispose_on_new_alert enrichments dispose) d
        (is_mixed-apply_dispose_on_new_alert enrichments dispose ∙ plain) e in
    rw e (rw again refl)

each_enriched :
    (call : Call) (dispose : Bool) (enrichments d : Dict Json)
    → is_mixed enrichments ≡ false
    → normalize_enrichments call.strict (apply_dispose_on_new_alert enrichments dispose) ≡ ok d
    → (fs : List String) (s : Store)
    → enrich_each call dispose enrichments fs s ≡ ok (write_all call d fs s)
unfolding enrich_each write_all
each_enriched call dispose enrichments d plain e [] s = refl
each_enriched call dispose enrichments d plain e (f ∷ fs) s =
    rw (one_enriched call dispose enrichments d plain e false true f s)
      (each_enriched call dispose enrichments d plain e fs (write call d f s))

first_refused :
    (call : Call) (dispose : Bool) (enrichments : Dict Json) (refusal : Refusal) (f : String)
    (fs : List String) (s : Store)
    → normalize_enrichments call.strict (apply_dispose_on_new_alert enrichments dispose)
      ≡ err refusal
    → enrich_each call dispose enrichments (f ∷ fs) s ≡ err refusal
unfolding enrich_each enrich_entity_impl
first_refused call dispose enrichments refusal f fs s e = rw e refl

-- For enrichments that do not mix a key of earlier clients with `dismiss_mode`, and without force,
-- enriching one or more alerts one by one leaves the same rows and audits as one batch does with the
-- flag `status_disposable` set, and is refused when that is.
pub enrich_each-batch_enrich :
    (call : Call) (dispose : Bool) (enrichments : Dict Json) (f : String) (fs : List String)
    (s : Store)
    → call.force ≡ false
    → is_mixed enrichments ≡ false
    → enrich_each call dispose enrichments (f ∷ fs) s
      ≡ batch_enrich call (apply_dispose_on_new_alert enrichments dispose) (f ∷ fs) s
unfolding batch_enrich
enrich_each-batch_enrich call dispose enrichments f fs s unforced plain =
    by_answer (normalize_enrichments call.strict (apply_dispose_on_new_alert enrichments dispose))
      refl
  where
    by_answer :
        (r : Result Refusal (Dict Json))
        → normalize_enrichments call.strict (apply_dispose_on_new_alert enrichments dispose) ≡ r
        → enrich_each call dispose enrichments (f ∷ fs) s ≡ (
            r >>= λ d. ok (record {
              last_alerts = batch_rows call d (f ∷ fs) s.last_alerts;
              audits = s.audits ++ batch_audits call (f ∷ fs);
            }))
    by_answer (ok d) e =
        each_enriched call dispose enrichments d plain e (f ∷ fs) s
        ∙ ap ok (written_at_once call d (f ∷ fs) s unforced)
    by_answer (err refusal) e = first_refused call dispose enrichments refusal f fs s e

accepted_as :
    (call : Call) (dispose produce should : Bool) (enrichments : Dict Json) (f : String) (s : Store)
    (done : Sent × Store)
    → enrich_entity_impl call dispose produce should enrichments f s ≡ ok done
    → (d : Dict Json) × (normalize_enrichments call.strict
          (apply_dispose_on_new_alert enrichments dispose)
        ≡ ok d)
unfolding enrich_entity_impl
accepted_as call dispose produce should enrichments f s done h =
    let (d, normalized, _) =
      bind-ok (normalize_enrichments call.strict (apply_dispose_on_new_alert enrichments dispose)) _
        done h in
    (d, normalized)

-- What an enrichment sends is what it stores: when enrichments that do not mix a key of earlier clients
-- with `dismiss_mode` are accepted, the event and the document, where they are sent, get one dict `d`,
-- and the row of the fingerprint, where there is one, becomes what `d` makes of it.
pub enrich_entity_impl-sent :
    (call : Call) (dispose produce should : Bool) (enrichments : Dict Json) (f : String)
    (s after : Store) (sent : Sent)
    → is_mixed enrichments ≡ false
    → enrich_entity_impl call dispose produce should enrichments f s ≡ ok (sent, after)
    → (d : Dict Json) × (sent.event ≡ (if produce then some d else none))
      × (sent.elastic ≡ (if should then some d else none))
      × (find_row call.tenant_id f after.last_alerts
          ≡ map_row (apply_enrichments call.force d) (find_row call.tenant_id f s.last_alerts))
unfolding write
enrich_entity_impl-sent call dispose produce should enrichments f s after sent plain h =
    let (d, normalized) = accepted_as call dispose produce should enrichments f s (sent, after) h in
    let e =
      ap done_of
        (sym (one_enriched call dispose enrichments d plain normalized produce should f s) ∙ h) in
    let stored =
      find_row-update_row call.tenant_id f (apply_enrichments call.force d)
        (is_row-apply_enrichments call.tenant_id f call.force d) s.last_alerts in
    (
      d,
      sym (ap (λ x. x.0.event) e),
      sym (ap (λ x. x.0.elastic) e),
      ap (λ x. find_row call.tenant_id f x.1.last_alerts) (sym e) ∙ stored,
    )
  where
    done_of : Result Refusal (Sent × Store) → Sent × Store
    done_of (ok x) = x
    done_of (err refusal) = (sent, after)
