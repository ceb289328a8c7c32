-- ===== src/Logger/Spans.antt =====
-- `actualizeTraceSpan` of src/modules/elk-logger/services/base.elk-logger.service.ts. A field that is
-- undefined is the empty string, from which the code does not tell it.
pub mod Parents
use demo_hybrid_microservice.Common.{String, Bool, ◌||◌, if◌then◌else◌, str_eq}

pub record TraceSpan : Type 0 where
  pub trace_id : String
  pub span_id : String
  pub parent_span_id : String
  pub initial_span_id : String

abbrev or_fallback : String → String → String
or_fallback fallback s = if str_eq s "" then fallback else s

abbrev unless_same : String → String → String → String
unless_same span other s = if str_eq s "" || str_eq s span then other else s

-- `fallback` is `ProcessTraceSpanStore.instance.get()`.
pub actualize_trace_span : TraceSpan → TraceSpan → TraceSpan
actualize_trace_span fallback r =
    let span = or_fallback fallback.span_id r.span_id in
    let parent = unless_same span "" r.parent_span_id in
    record {
      trace_id = or_fallback fallback.trace_id r.trace_id;
      span_id = span;
      parent_span_id = parent;
      initial_span_id = unless_same span parent r.initial_span_id;
    }
