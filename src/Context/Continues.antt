-- ===== src/Context/Continues.antt =====
-- The trace that a context continues.
use demo_hybrid_microservice.Common.{
  ◌≡◌, refl, ◌∙◌, sym, String, Bool, true, false, not, ◌&&◌, Option, none, some, if◌then◌else◌,
  ◌==◌, str_eq, ap, subst, arith, Bool-cases, inl, inr,
}
use demo_hybrid_microservice.Logger.Spans.{TraceSpan}
use demo_hybrid_microservice.Telemetry.Propagation.{SpanContext, pad_start, text_length, hex_digits}
use demo_hybrid_microservice.Context.{
  zero_trace_id, zero_span_id, or_text, valid_active, fallback_parent, under_active, under_fallback,
  enriched_context,
}

-- OpenTelemetry's identifiers have so many hexadecimal digits, upper or lower case, and are not all zeros.
abbrev is_hex : String → Bool
is_hex s = text_length (hex_digits s) == text_length s

abbrev is_trace_id : String → Bool
is_trace_id s = not (str_eq s zero_trace_id) && (text_length s == 32 && is_hex s)

abbrev is_span_id : String → Bool
is_span_id s = not (str_eq s zero_span_id) && (text_length s == 16 && is_hex s)

-- `isSpanContextValid`
abbrev pub is_valid : SpanContext → Bool
is_valid c = is_trace_id c.trace_id && is_span_id c.span_id

-- The parent that `startSpan` is given.
abbrev given_parent :
    Option SpanContext → Option SpanContext → TraceSpan → TraceSpan → Option SpanContext
given_parent (some c) active process fields = some c
given_parent none active process fields = fallback_parent active fields process

abbrev pub parent_of : Option SpanContext → TraceSpan → TraceSpan → Option SpanContext
parent_of active process fields = given_parent (valid_active active) active process fields

-- The trace that a block belongs to.
abbrev fallback_trace : TraceSpan → TraceSpan → String
fallback_trace process fields =
    if str_eq fields.trace_id "" then process.trace_id else pad_start 32 fields.trace_id

abbrev trace_under : Option SpanContext → TraceSpan → TraceSpan → String
trace_under (some c) process fields = c.trace_id
trace_under none process fields = fallback_trace process fields

abbrev pub expected_trace : Option SpanContext → TraceSpan → TraceSpan → String
expected_trace active process fields = trace_under (valid_active active) process fields

-- A span that is active without a trace is no valid parent.
invalid_active :
    (active : Option SpanContext) (p : SpanContext)
    → valid_active active ≡ none
    → active ≡ some p
    → is_valid p ≡ false
invalid_active none p h e = ground (arith, e)
invalid_active (some c) p h e = elim (Bool-cases (str_eq c.trace_id zero_trace_id)) [
  | inl zeros ↦ subst (λ x. is_valid x ≡ false) (ap (from c) e) (rw zeros refl)
  | inr others ↦ ground (arith, others, h)
]
  where
    from : SpanContext → Option SpanContext → SpanContext
    from d none = d
    from d (some q) = q

fallback_parent-trace :
    (active : Option SpanContext) (process fields : TraceSpan) (p : SpanContext)
    → valid_active active ≡ none
    → fallback_parent active fields process ≡ some p
    → is_valid p ≡ true
    → p.trace_id ≡ fallback_trace process fields
fallback_parent-trace active process fields p h =
    by_fields (str_eq fields.trace_id "") (str_eq process.trace_id "")
  where
    trace_of : Option SpanContext → String
    trace_of none = ""
    trace_of (some q) = q.trace_id

    by_fields :
        (b d : Bool)
        → (if not b
            then some (record {
              trace_id = pad_start 32 fields.trace_id;
              span_id = pad_start 16 (or_text fields.parent_span_id zero_span_id);
              is_remote = true;
            })
            else (if d
                then active
                else some (record {
                  trace_id = process.trace_id;
                  span_id = process.span_id;
                  is_remote = false;
                })))
          ≡ some p
        → is_valid p ≡ true
        → p.trace_id ≡ (if b then process.trace_id else pad_start 32 fields.trace_id)
    by_fields false d e valid = sym (ap trace_of e)
    by_fields true false e valid = sym (ap trace_of e)
    by_fields true true e valid = ground (arith, valid, invalid_active active p h e)

module _ (start_span : Option SpanContext → SpanContext)
    (continues : (p : SpanContext)
      → is_valid p ≡ true
      → (start_span (some p)).trace_id ≡ p.trace_id) where
  -- If OpenTelemetry continues the trace of a valid parent, one whose identifiers have 32 and 16 hexadecimal
  -- digits that are not all zeros, and the parent that a block under `wrapWithTelemetry` is given is valid,
  -- then the block's context has the trace of the active span, or, if that is none, the context's own
  -- trace, padded with zeros, or else the trace of the process.
  pub enriched_context-continues :
      (active : Option SpanContext) (process fields : TraceSpan) (p : SpanContext)
      → parent_of active process fields ≡ some p
      → is_valid p ≡ true
      → (enriched_context start_span active process fields).trace_id
        ≡ expected_trace active process fields
  unfolding enriched_context
  enriched_context-continues active process fields p = under (valid_active active) refl
    where
      under :
          (o : Option SpanContext)
          → valid_active active ≡ o
          → given_parent o active process fields ≡ some p
          → is_valid p ≡ true
          → (elim o as (λ _. TraceSpan) [
            | some c ↦ under_active start_span c fields
            | none ↦ under_fallback start_span (fallback_parent active fields process) fields
          ]).trace_id
            ≡ trace_under o process fields
      under (some c) h e valid =
          ap (λ x. (start_span x).trace_id) e ∙ continues p valid ∙ sym (ap trace_or e)
        where
          trace_or : Option SpanContext → String
          trace_or none = ""
          trace_or (some q) = q.trace_id
      under none h e valid =
          ap (λ x. (start_span x).trace_id) e
          ∙ continues p valid
          ∙ fallback_parent-trace active process fields p h e valid
