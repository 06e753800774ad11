-- ===== src/Cel/Validate/Agree.antt =====
-- One verdict: the check of a filter, the conversion that runs it, and the contexts of the check.
use keep_api_gateway.Prelude.{
  ℕ, zero, suc, ◌+◌, none, ◌⊎◌, inl, inr, String, Bool, true, false, ◌==◌, Option, some, List, [],
  ◌∷◌, Result, ok, err, ◌>>=◌, ◌≡◌, refl, sym, subst, arith, ap, ◌∙◌, eq_iff, if◌then◌else◌,
}
use keep_api_gateway.Cel.Ast.{Node, is_boolean_filter_node}
use keep_api_gateway.Cel.Metadata.{PropertyMetadataInfo}
use keep_api_gateway.Cel.Mapper.{map_props_in_ast}
use keep_api_gateway.Cel.Convert.{
  CelToSqlException, ParseError, ConvertError, rejected, mapping_leak, building_leak,
  CelToSqlResult, parse_failure, not_boolean, mapped, built_filter, converted,
  convert_to_sql_str_v2,
}
use keep_api_gateway.Cel.Convert
use keep_api_gateway.Cel.Validate
use keep_api_gateway.Cel.Validate.{
  is_blank, CelValidationResult, accepted, refused, ValidationError, leaked, invalid_cel,
  CelDiagnosticRange, CelDiagnostic, or_else, range_between, range_from_converter_error,
  diagnostics_from_converter_error, verdict, or_empty, event_verdict, validate_alert_filter_cel,
  validate_event_filter_cel, validate_cel, ensure_valid_cel,
}

-- A place that is given, or another where it is missing or 0.
abbrev pub IsGiven : Option ℕ → (other place : ℕ) → Type 0
IsGiven none other place = place ≡ other
IsGiven (some zero) other place = place ≡ other
IsGiven (some (suc n)) other place = place ≡ suc n

-- A range is where an exception says it is, and ends one column further where that is left open; an
-- exception without a line or a column has none.
abbrev pub PointsTo : CelToSqlException → Option CelDiagnosticRange → Type 0
PointsTo e none = (e.line ≡ none) ⊎ (e.column ≡ none)
PointsTo e (some r) =
    (e.line ≡ some r.start_line)
    × (e.column ≡ some r.start_column)
    × IsGiven e.end_line r.start_line r.end_line
    × IsGiven e.end_column (r.start_column + 1) r.end_column

-- The answers of the checks for alerts and for another context, when the conversion ends as it does.
abbrev pub IsAnswer :
    String
    → Result ConvertError CelToSqlResult
    → (of_alerts of_others : Result ValidationError (Unit {0})) → Type 0
IsAnswer cel (ok result) of_alerts of_others = (of_alerts ≡ ok tt) × (of_others ≡ ok tt)
IsAnswer cel (err (rejected e)) of_alerts of_others =
    (d : CelDiagnostic) × (of_alerts ≡ err (invalid_cel (d ∷ []) cel))
    × (d.reason ≡ e.reason)
    × PointsTo e d.range
IsAnswer cel (err leak) of_alerts of_others = of_alerts ≡ err (leaked leak)

abbrev pub IsEventContext : String → Type 0
IsEventContext context =
    (context ≡ "maintenance")
    ⊎ ((context ≡ "extraction") ⊎ ((context ≡ "rules") ⊎ (context ≡ "workflows")))

or_else-IsGiven : (place : Option ℕ) (other : ℕ) → IsGiven place other (or_else place other)
or_else-IsGiven none other = refl
or_else-IsGiven (some zero) other = refl
or_else-IsGiven (some (suc n)) other = ground arith

range-PointsTo :
    (e : CelToSqlException) (line column : Option ℕ)
    → e.line ≡ line
    → e.column ≡ column
    → PointsTo e (range_between line column e.end_line e.end_column)
range-PointsTo e none column h k = inl h
range-PointsTo e (some l) none h k = inr k
range-PointsTo e (some l) (some c) h k =
    (h, k, or_else-IsGiven e.end_line l, or_else-IsGiven e.end_column (c + 1))

module _ (literal_proc : String → String) (parse_uuid : String → Option String)
    (format_date : String → String)
    (get_property_metadata : List String → Option PropertyMetadataInfo)
    (parse : String → Result ParseError Node) where
  -- A filter of white space alone is accepted by the check, while its conversion, where the parser
  -- refuses it, is rejected.
  validate-blank :
      (cel : String) (e : ParseError)
      → is_blank cel ≡ true
      → (cel == "") ≡ false
      → parse cel ≡ err e
      → (validate_alert_filter_cel literal_proc parse_uuid format_date get_property_metadata parse
            (some cel)
          ≡ ok accepted)
        × (convert_to_sql_str_v2 literal_proc parse_uuid format_date get_property_metadata parse cel
            ≡ err (rejected (parse_failure e)))
  unfolding validate_alert_filter_cel convert_to_sql_str_v2
  validate-blank cel e b n p = (rw (b) refl, rw (n, p) refl)

  -- What alerts accept, every other context accepts.
  converted-parsed :
      (cel : String)
      → verdict (converted literal_proc parse_uuid format_date get_property_metadata parse cel)
        ≡ ok accepted
      → event_verdict cel (parse cel) ≡ accepted
  converted-parsed cel h = with_parse (parse cel) h
    where
      with_test :
          (n : Node) (b : Bool)
          → verdict (
              (if b then ok n else err (rejected (not_boolean cel n))) >>= λ query.
              mapped (map_props_in_ast get_property_metadata query)
              >>= built_filter literal_proc parse_uuid format_date get_property_metadata parse)
            ≡ ok accepted
          → (if b then accepted else refused (Validate.boolean_diagnostic cel n ∷ [])) ≡ accepted
      with_test n true h = refl
      with_test n false h = absurd (cc)

      with_parse :
          (r : Result ParseError Node)
          → verdict (
              Convert.parsed r >>= λ original. Convert.checked cel original >>= λ query.
              mapped (map_props_in_ast get_property_metadata query)
              >>= built_filter literal_proc parse_uuid format_date get_property_metadata parse)
            ≡ ok accepted
          → event_verdict cel r ≡ accepted
      with_parse (ok n) h = with_test n (is_boolean_filter_node n) h
      with_parse (err e) h = absurd (cc)

  empty_is_blank : (cel : String) → (cel == "") ≡ true → is_blank cel ≡ true
  unfolding is_blank
  empty_is_blank cel h = ap is_blank ((eq_iff cel "").0 h)

  -- A filter that the check of alerts accepts is accepted by the check of events, in each of its
  -- contexts.
  validate_alert-event :
      (cel : Option String)
      → validate_alert_filter_cel literal_proc parse_uuid format_date get_property_metadata parse
          cel
        ≡ ok accepted
      → validate_event_filter_cel literal_proc parse_uuid format_date get_property_metadata parse
          cel
        ≡ accepted
  unfolding validate_alert_filter_cel validate_event_filter_cel convert_to_sql_str_v2
  validate_alert-event cel h = by_blank (or_empty cel) (is_blank (or_empty cel)) refl h
    where
      by_test :
          (cel : String) (t : Bool)
          → (cel == "") ≡ t
          → is_blank cel ≡ false
          → verdict (
              if t
              then ok ("", [])
              else converted literal_proc parse_uuid format_date get_property_metadata parse cel)
            ≡ ok accepted
          → event_verdict cel (parse cel) ≡ accepted
      by_test cel true t b h = absurd (cc (sym b ∙ empty_is_blank cel t))
      by_test cel false t b h = converted-parsed cel h

      by_blank :
          (cel : String) (b : Bool)
          → is_blank cel ≡ b
          → (if b
              then ok accepted
              else verdict (
                  convert_to_sql_str_v2 literal_proc parse_uuid format_date get_property_metadata
                    parse cel))
            ≡ ok accepted
          → (if b then accepted else event_verdict cel (parse cel)) ≡ accepted
      by_blank cel true b h = refl
      by_blank cel false b h = by_test cel (cel == "") refl b h

  event-accepted :
      (cel context : String)
      → IsEventContext context
      → validate_event_filter_cel literal_proc parse_uuid format_date get_property_metadata parse
          (some cel)
        ≡ accepted
      → ensure_valid_cel literal_proc parse_uuid format_date get_property_metadata parse
          (some cel)
          context
        ≡ ok tt
  unfolding ensure_valid_cel validate_cel
  event-accepted cel context (inl e) h = rw (e, h) refl
  event-accepted cel context (inr (inl e)) h = rw (e, h) refl
  event-accepted cel context (inr (inr (inl e))) h = rw (e, h) refl
  event-accepted cel context (inr (inr (inr e))) h = rw (e, h) refl

  -- A filter that is not blank passes the check of alerts exactly when it converts, and then it passes
  -- in the contexts of events too. When the conversion rejects it, the check answers with one
  -- diagnostic, of the exception's code and place; what the conversion lets pass, the check lets pass.
  pub ensure_valid_cel-convert :
      (cel context : String)
      → is_blank cel ≡ false
      → IsEventContext context
      → IsAnswer cel
          (convert_to_sql_str_v2 literal_proc parse_uuid format_date get_property_metadata parse
            cel)
          (ensure_valid_cel literal_proc parse_uuid format_date get_property_metadata parse
            (some cel)
            "alerts")
          (ensure_valid_cel literal_proc parse_uuid format_date get_property_metadata parse
            (some cel)
            context)
  unfolding ensure_valid_cel validate_cel validate_alert_filter_cel
  ensure_valid_cel-convert cel context h known =
      subst (λ x. IsAnswer cel conversion x (checked context)) (sym of_alerts)
        (outcome conversion refl)
    where
      conversion : Result ConvertError CelToSqlResult
      conversion =
          convert_to_sql_str_v2 literal_proc parse_uuid format_date get_property_metadata parse cel

      checked : String → Result ValidationError (Unit {0})
      checked context =
          ensure_valid_cel literal_proc parse_uuid format_date get_property_metadata parse
            (some cel) context

      of_alerts :
          checked "alerts"
          ≡ (Validate.lift_leak (verdict conversion) >>= Validate.raise_invalid cel)
      of_alerts = rw h refl

      outcome :
          (r : Result ConvertError CelToSqlResult)
          → conversion ≡ r
          → IsAnswer cel r
              (Validate.lift_leak (verdict r) >>= Validate.raise_invalid cel)
              (checked context)
      outcome (ok result) e = (
        refl,
        event-accepted cel context known (validate_alert-event (some cel) (rw (h, e) refl)),
      )
      outcome (err (rejected x)) e = (
        record { reason = x.reason; range = range_from_converter_error x },
        refl,
        refl,
        range-PointsTo x x.line x.column refl refl,
      )
      outcome (err (mapping_leak x)) e = refl
      outcome (err (building_leak x)) e = refl
