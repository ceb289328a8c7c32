-- ===== src/Telemetry/Sampling/Groups.antt =====
-- The traces that a batch of spans is grouped into.
use demo_hybrid_microservice.Common.{
  filter_by-append, ◌≡◌, refl, sym, ap, ◌∙◌, String, Bool, true, false, ◌||◌, List, [], ◌∷◌, ◌++◌,
  filter_by, if◌then◌else◌, str_eq, eq_iff, All, All-append, includes, append_assoc, append-nil,
  Bool-cases, inl, inr, arith,
}
use demo_hybrid_microservice.Telemetry.Sampling.{Span, Traces, add_span, group_spans}

abbrev pub in_trace : String → Span → Bool
in_trace t s = str_eq s.trace_id t

-- The spans that a grouping has for a trace.
abbrev pub trace_of : String → Traces → List Span
trace_of t [] = []
trace_of t ((k, ss) ∷ traces) = if str_eq k t then ss else trace_of t traces

abbrev pub trace_ids : Traces → List String
trace_ids [] = []
trace_ids ((k, ss) ∷ traces) = k ∷ trace_ids traces

pub trace_of-add_span :
    (t : String) (s : Span) (traces : Traces)
    → trace_of t (add_span s traces) ≡ trace_of t traces ++ filter_by (in_trace t) (s ∷ [])
unfolding add_span
trace_of-add_span t s [] = ground arith
trace_of-add_span t s ((k, ss) ∷ traces) = ground (
  arith,
  trace_of-add_span t s traces,
  eq_iff k s.trace_id,
  eq_iff s.trace_id k,
  eq_iff s.trace_id t,
  eq_iff k t,
  append-nil ss,
  append-nil (trace_of t traces),
)

pub trace_of-group_spans :
    (t : String) (spans : List Span) (traces : Traces)
    → trace_of t (group_spans spans traces) ≡ trace_of t traces ++ filter_by (in_trace t) spans
unfolding group_spans
trace_of-group_spans t [] traces = sym (append-nil (trace_of t traces))
trace_of-group_spans t (s ∷ spans) traces =
    trace_of-group_spans t spans (add_span s traces)
    ∙ rw (trace_of-add_span t s traces, append_assoc)
        (ap (λ ss. trace_of t traces ++ ss) (sym (filter_by-append (in_trace t) (s ∷ []) spans)))

-- Every list of a grouping holds the spans of its trace, and no trace stands twice.
abbrev pub IsGrouped : Traces → Type 0
IsGrouped [] = Unit
IsGrouped ((k, ss) ∷ traces) =
    All (λ s. in_trace k s ≡ true) ss × (includes (trace_ids traces) k ≡ false) × IsGrouped traces

pub trace_ids-add_span :
    (s : Span) (traces : Traces) (t : String)
    → includes (trace_ids (add_span s traces)) t
      ≡ (includes (trace_ids traces) t || str_eq s.trace_id t)
unfolding add_span
trace_ids-add_span s [] t = ground arith
trace_ids-add_span s ((k, ss) ∷ traces) t =
    ground (arith, trace_ids-add_span s traces t, eq_iff k s.trace_id)

pub add_span-IsGrouped :
    (s : Span) (traces : Traces) → IsGrouped traces → IsGrouped (add_span s traces)
unfolding add_span
add_span-IsGrouped s [] g = ((ground (arith, eq_iff s.trace_id s.trace_id), tt), refl, tt)
add_span-IsGrouped s ((k, ss) ∷ traces) g = elim (Bool-cases (str_eq k s.trace_id)) [
  | inl same ↦ rw same (
    All-append _ ss (s ∷ []) g.0 (ground (arith, eq_iff k s.trace_id, eq_iff s.trace_id k), tt),
    g.1,
    g.2,
  )
  | inr other ↦ rw other (
    g.0,
    ground (arith, g.1, trace_ids-add_span s traces k, eq_iff k s.trace_id, eq_iff s.trace_id k),
    add_span-IsGrouped s traces g.2,
  )
]

pub group_spans-IsGrouped :
    (spans : List Span) (traces : Traces) → IsGrouped traces → IsGrouped (group_spans spans traces)
unfolding group_spans
group_spans-IsGrouped [] traces g = g
group_spans-IsGrouped (s ∷ spans) traces g =
    group_spans-IsGrouped spans (add_span s traces) (add_span-IsGrouped s traces g)

pub trace_of-missing :
    (t : String) (traces : Traces) → includes (trace_ids traces) t ≡ false → trace_of t traces ≡ []
trace_of-missing t [] h = refl
trace_of-missing t ((k, ss) ∷ traces) h = ground (arith, trace_of-missing t traces)

-- The spans of one trace are those of the trace, and not of another.
pub filter_by-trace :
    (k t : String) (ss : List Span)
    → All (λ s. in_trace k s ≡ true) ss
    → filter_by (in_trace t) ss ≡ (if str_eq k t then ss else [])
filter_by-trace k t [] h = ground arith
filter_by-trace k t (s ∷ ss) h =
    ground
      (arith, h.0, filter_by-trace k t ss h.1, eq_iff s.trace_id k, eq_iff s.trace_id t, eq_iff k t)
