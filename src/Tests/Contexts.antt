-- ===== src/Tests/Contexts.antt =====
-- A block of code under a trace that a message has brought, whose promise rejects.
use demo_hybrid_microservice.Common.{◌≡◌, refl, true, false, Option, none, some, count_by}
use demo_hybrid_microservice.Common.Methods.{promises, rejects, seen, settlement_of}
use demo_hybrid_microservice.Logger.Spans.{TraceSpan}
use demo_hybrid_microservice.Telemetry.Propagation.{SpanContext, hex_digits}
use demo_hybrid_microservice.Context.{enriched_context, execute_and_lifecycle_span, settle_span}
use demo_hybrid_microservice.Context.Lifecycle.{
  is_end, is_ok_status, ends_last, IsTimely, whole_calls, whole_calls-end,
}
use demo_hybrid_microservice.Context.Continues.{expected_trace, enriched_context-continues}

whole_calls-end_example :
    (seen (execute_and_lifecycle_span (λ e. true) promises).1 ≡ promises)
    × ((settle_span (λ e. true) (rejects "lost")).1 ≡ settlement_of (rejects "lost"))
    × IsTimely promises (execute_and_lifecycle_span (λ e. true) promises).0
    × (count_by is_end (whole_calls (λ e. true) promises (rejects "lost")) ≡ 1)
    × (ends_last (whole_calls (λ e. true) promises (rejects "lost")) ≡ true)
    × (count_by is_ok_status (whole_calls (λ e. true) promises (rejects "lost")) ≡ 0)
whole_calls-end_example = whole_calls-end (λ e. true) promises (rejects "lost") (λ e. refl)

-- A span of the parent's trace, or of a new one.
abbrev start_span : Option SpanContext → SpanContext
start_span none = record {
  trace_id = "33333333333333333333333333333333";
  span_id = "4444444444444444";
  is_remote = false;
}
start_span (some p) = record {
  trace_id = p.trace_id;
  span_id = "4444444444444444";
  is_remote = false;
}

abbrev process : TraceSpan
process = record {
  trace_id = "11111111111111111111111111111111";
  span_id = "2222222222222222";
  parent_span_id = "";
  initial_span_id = "";
}

abbrev brought : TraceSpan
brought = record { trace_id = "ab"; span_id = ""; parent_span_id = "cd"; initial_span_id = "" }

enriched_context-continues_example :
    (enriched_context start_span none process brought).trace_id
    ≡ expected_trace none process brought
unfolding hex_digits
enriched_context-continues_example =
    enriched_context-continues start_span (λ p valid. refl) none process brought _ refl refl
