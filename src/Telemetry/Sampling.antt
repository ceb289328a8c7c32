-- ===== src/Telemetry/Sampling.antt =====
-- `ContextualTailSamplingExporter.export` (`src/modules/opentelemetry/exporters/contextual-tail-sampling.exporter.ts`): the spans
-- of a batch are grouped by their trace, and a trace is passed on as a whole or not at all. The methods
-- of JavaScript's strings and the rounding of its numbers are parameters; debug messages are left out.
-- A difference of two times divided by a million is at least the threshold exactly if the difference is
-- at least a million times the threshold, which is how the test is written here.
use demo_hybrid_microservice.Common.{
  ℕ, ◌+◌, ◌*◌, String, Bool, true, false, ◌||◌, List, [], ◌∷◌, ◌++◌, Option, none, some, leb, ltb,
  any_of, if◌then◌else◌, str_eq,
}
pub mod Groups
pub mod Durations
pub mod Traces

-- What the exporter reads of a `ReadableSpan`; a time is a number of seconds and one of nanoseconds.
pub record Span : Type 0 where
  pub name : String
  pub trace_id : String
  pub span_id : String
  pub is_error : Bool
  pub start_time : ℕ × ℕ
  pub end_time : ℕ × ℕ

-- `Map<string, ReadableSpan[]>`, in the order in which the keys were set.
abbrev pub Traces : Type 0
Traces = List (String × List Span)

-- What becomes of a batch: `resultCallback` with success, or `export` of the exporter downstream.
pub data Outcome : Type 0 where
  success : Outcome
  forward : List Span → Outcome

-- `minStartTimeNs` and `maxEndTimeNs`; `none` is Infinity and -Infinity.
pub record Window : Type 0 where
  pub min_start : Option ℕ
  pub max_end : Option ℕ

abbrev pub unbounded : Window
unbounded = record { min_start = none; max_end = none }

unfoldable pub add_span : Span → Traces → Traces
add_span s [] = (s.trace_id, s ∷ []) ∷ []
add_span s ((t, ss) ∷ traces) =
    let rest = add_span s traces in
    if str_eq t s.trace_id then (t, ss ++ s ∷ []) ∷ traces else (t, ss) ∷ rest

unfoldable pub group_spans : List Span → Traces → Traces
group_spans [] traces = traces
group_spans (s ∷ spans) traces = group_spans spans (add_span s traces)

abbrev pub lower : ℕ → Option ℕ → Option ℕ
lower n none = some n
lower n (some m) = if ltb n m then some n else some m

abbrev pub raise : ℕ → Option ℕ → Option ℕ
raise n none = some n
raise n (some m) = if ltb m n then some n else some m

module _ (round : ℕ → ℕ) where
  -- `sec * 1000000000 + nano`
  abbrev pub in_nanoseconds : ℕ × ℕ → ℕ
  in_nanoseconds (sec, nano) = round (round (sec * 1000000000) + nano)

  abbrev pub widen_by : Span → Window → Window
  widen_by s w = record {
    min_start = lower (in_nanoseconds s.start_time) w.min_start;
    max_end = raise (in_nanoseconds s.end_time) w.max_end;
  }

  unfoldable pub widen : Window → List Span → Window
  widen w [] = w
  widen w (s ∷ spans) = widen (widen_by s w) spans

-- `(maxEndTimeNs - minStartTimeNs) / 1000000 >= forcedThreshold`, which is false of infinities.
abbrev pub lasts : ℕ → Option ℕ → Option ℕ → Bool
lasts threshold (some a) (some b) = leb (a + threshold * 1000000) b
lasts threshold _ _ = false

abbrev pub is_anomaly_duration : ℕ → Window → Bool
is_anomaly_duration threshold w = lasts threshold w.min_start w.max_end

-- What `export` does with `spansToExport`.
abbrev pub report : List Span → Outcome
report [] = success
report (s ∷ spans) = forward (s ∷ spans)

module _ (round : ℕ → ℕ) (to_lower_case : String → String) (contains : String → String → Bool)
    (ignored_endpoints : List String) (forced_threshold : ℕ) where
  abbrev pub is_ignored : Span → Bool
  is_ignored s =
      any_of (λ endpoint. contains (to_lower_case s.name) (to_lower_case endpoint))
        ignored_endpoints

  abbrev pub find_ignored : List Span → Option Span
  find_ignored [] = none
  find_ignored (s ∷ spans) = if is_ignored s then some s else find_ignored spans

  abbrev pub unless_ignored : Option Span → List Span → List Span
  unless_ignored (some ignored) spans = []
  unless_ignored none spans =
      if any_of (λ s. s.is_error) spans
        || is_anomaly_duration forced_threshold (widen round unbounded spans)
      then spans
      else []

  -- The spans of one trace that are pushed to `spansToExport`.
  abbrev pub sample_trace : List Span → List Span
  sample_trace spans = unless_ignored (find_ignored spans) spans

  unfoldable pub spans_to_export : Traces → List Span
  spans_to_export [] = []
  spans_to_export ((t, spans) ∷ traces) = sample_trace spans ++ spans_to_export traces

  -- `export`
  unfoldable pub export : List Span → Outcome
  export [] = success
  export (s ∷ spans) = report (spans_to_export (group_spans (s ∷ spans) []))
