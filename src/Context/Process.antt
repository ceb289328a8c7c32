-- ===== src/Context/Process.antt =====
-- `ProcessTraceSpanStore`: src/modules/elk-logger/services/process-trace-span.store.ts. `generated` are the
-- identifiers that a call would generate.
use demo_hybrid_microservice.Common.{Option, none, some}
use demo_hybrid_microservice.Logger.Spans.{TraceSpan}
use demo_hybrid_microservice.Telemetry.Propagation.{SpanContext}
use demo_hybrid_microservice.Context.{valid_active}

pub record ProcessStore : Type 0 where
  pub bootstrap_span : Option SpanContext
  pub process_value : Option TraceSpan

abbrev pub of_span : SpanContext → TraceSpan
of_span c = record {
  trace_id = c.trace_id;
  span_id = c.span_id;
  parent_span_id = "";
  initial_span_id = "";
}

abbrev pub set_bootstrap_span : SpanContext → ProcessStore → ProcessStore
set_bootstrap_span c s = record s { bootstrap_span = some c }

abbrev pub clear_bootstrap_span : ProcessStore → ProcessStore
clear_bootstrap_span s = record s { bootstrap_span = none }

abbrev process_fallback : Option TraceSpan → SpanContext → ProcessStore → TraceSpan × ProcessStore
process_fallback (some v) generated s = (v, s)
process_fallback none generated s =
    (of_span generated, record s { process_value = some (of_span generated) })

abbrev active_or : Option SpanContext → SpanContext → ProcessStore → TraceSpan × ProcessStore
active_or (some c) generated s = (of_span c, s)
active_or none generated s = process_fallback s.process_value generated s

abbrev bootstrap_or :
    Option SpanContext → Option SpanContext → SpanContext → ProcessStore → TraceSpan × ProcessStore
bootstrap_or (some c) active generated s = (of_span c, s)
bootstrap_or none active generated s = active_or (valid_active active) generated s

pub get_process : Option SpanContext → SpanContext → ProcessStore → TraceSpan × ProcessStore
get_process active generated s = bootstrap_or s.bootstrap_span active generated s
