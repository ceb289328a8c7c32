-- ===== src/Telemetry/Sampling/Traces.antt =====
-- Which spans of a batch `export` passes on: those of the traces that qualify, whole and in order.
use demo_hybrid_microservice.Common.{
  filter_by-append, ℕ, ◌≡◌, refl, ap, ◌∙◌, String, Bool, true, not, ◌||◌, ◌&&◌, List, [], ◌∷◌,
  any_of, filter_by, if◌then◌else◌, str_eq, eq_iff, All, append-nil, Bool-cases, inl, inr, arith,
}
use demo_hybrid_microservice.Telemetry.Sampling.{
  Span, Traces, Outcome, success, forward, group_spans, is_ignored, find_ignored, unless_ignored,
  spans_to_export, report, export,
}
use demo_hybrid_microservice.Telemetry.Sampling.Groups.{
  in_trace, trace_of, trace_of-group_spans, IsGrouped, group_spans-IsGrouped, trace_of-missing,
  filter_by-trace,
}
use demo_hybrid_microservice.Telemetry.Sampling.Durations.{is_long, is_anomaly_duration-is_long}

-- The spans that an outcome passes on.
abbrev pub exported : Outcome → List Span
exported success = []
exported (forward spans) = spans

module _ (round : ℕ → ℕ) (to_lower_case : String → String) (contains : String → String → Bool)
    (ignored_endpoints : List String) (forced_threshold : ℕ) where
  -- A trace qualifies if no span of it is ignored, and one is an error or the trace is long.
  abbrev pub qualifies : List Span → Bool
  qualifies spans =
      not
        (any_of (is_ignored round to_lower_case contains ignored_endpoints forced_threshold) spans)
      && (any_of (λ s. s.is_error) spans || is_long round forced_threshold spans)

  sample_spans :
      (all spans : List Span)
      → unless_ignored round to_lower_case contains ignored_endpoints forced_threshold
          (find_ignored round to_lower_case contains ignored_endpoints forced_threshold spans)
          all
        ≡ (if not (
                any_of
                  (is_ignored round to_lower_case contains ignored_endpoints forced_threshold)
                  spans)
              && (any_of (λ s. s.is_error) all || is_long round forced_threshold all)
            then all
            else [])
  sample_spans all [] = rw (is_anomaly_duration-is_long round forced_threshold all) refl
  sample_spans all (s ∷ spans) = ground (arith, sample_spans all spans)

  abbrev to_export : Traces → List Span
  to_export = spans_to_export round to_lower_case contains ignored_endpoints forced_threshold

  -- A trace as `export` passes it on.
  abbrev pub sampled : List Span → List Span
  sampled spans = if qualifies spans then spans else []

  filter_by-sampled :
      (k t : String) (ss : List Span)
      → All (λ s. in_trace k s ≡ true) ss
      → filter_by (in_trace t) (sampled ss) ≡ (if str_eq k t then sampled ss else [])
  filter_by-sampled k t ss h = ground (arith, filter_by-trace k t ss h)

  filter_by-to_export :
      (t : String) (traces : Traces)
      → IsGrouped traces
      → filter_by (in_trace t) (to_export traces) ≡ sampled (trace_of t traces)
  unfolding spans_to_export
  filter_by-to_export t [] g = ground arith
  filter_by-to_export t ((k, ss) ∷ traces) g =
      rw
        (
          sample_spans ss ss,
          filter_by-append,
          filter_by-sampled k t ss g.0,
          filter_by-to_export t traces g.2,
        )
        (elim (Bool-cases (str_eq k t)) [
          | inl same ↦
              rw (same, trace_of-missing t traces (ground (arith, g.1, eq_iff k t)))
                (append-nil (sampled ss))
          | inr other ↦ rw other refl
        ])

  exported-report : (spans : List Span) → exported (report spans) ≡ spans
  exported-report [] = refl
  exported-report (s ∷ spans) = refl

  -- For every batch and every trace, what `export` passes on of the trace are all its spans of the
  -- batch, in order, if no span's name contains an ignored endpoint, and some span is an error or
  -- some span ends the threshold or more after some span starts; and otherwise nothing.
  pub export-sampled :
      (t : String) (spans : List Span)
      → filter_by
          (in_trace t)
          (exported (export round to_lower_case contains ignored_endpoints forced_threshold spans))
        ≡ sampled (filter_by (in_trace t) spans)
  unfolding export
  export-sampled t [] = ground arith
  export-sampled t (s ∷ spans) = rw (exported-report (to_export (group_spans (s ∷ spans) []))) (
      filter_by-to_export t (group_spans (s ∷ spans) []) (group_spans-IsGrouped (s ∷ spans) [] tt)
      ∙ ap sampled (trace_of-group_spans t (s ∷ spans) []))
