-- ===== src/Logger/Spans/Parents.antt =====
-- The spans of a log record.
use demo_hybrid_microservice.Common.{
  ◌≡◌, refl, String, false, ◌||◌, str_eq, eq_iff, arith, Bool-cases, inl, inr,
}
use demo_hybrid_microservice.Logger.Spans.{
  TraceSpan, or_fallback, unless_same, actualize_trace_span,
}

or_fallback-set :
    (fallback s : String) → str_eq fallback "" ≡ false → str_eq (or_fallback fallback s) "" ≡ false
or_fallback-set fallback s h = elim (Bool-cases (str_eq s "")) [
  | inl empty ↦ rw empty h
  | inr given ↦ rw (given, given) refl
]

unless_same-differs :
    (span other s : String)
    → str_eq other span ≡ false
    → str_eq (unless_same span other s) span ≡ false
unless_same-differs span other s h = elim (Bool-cases (str_eq s "" || str_eq s span)) [
  | inl same ↦ rw same h
  | inr other ↦ rw other (ground (arith, other))
]

-- If the process has a trace and a span, then every record has a trace and a span after
-- `actualizeTraceSpan`, and neither its parent nor its initial span is its own span.
actualize_trace_span_lem :
    (fallback r : TraceSpan)
    → str_eq fallback.trace_id "" ≡ false
    → str_eq fallback.span_id "" ≡ false
    → let t = actualize_trace_span fallback r in
      (str_eq t.trace_id "" ≡ false)
      × (str_eq t.span_id "" ≡ false)
      × (str_eq t.parent_span_id t.span_id ≡ false)
      × (str_eq t.initial_span_id t.span_id ≡ false)
unfolding actualize_trace_span
actualize_trace_span_lem fallback r ht hs =
    let span = or_fallback fallback.span_id r.span_id in
    let set = or_fallback-set fallback.span_id r.span_id hs in
    let empty : str_eq "" span ≡ false = ground (arith, eq_iff "" span, eq_iff span "", set) in
    let parent = unless_same-differs span "" r.parent_span_id empty in
    (
      or_fallback-set fallback.trace_id r.trace_id ht,
      set,
      parent,
      unless_same-differs span (unless_same span "" r.parent_span_id) r.initial_span_id parent,
    )
