-- ===== src/Context.antt =====
-- `AbstractAsyncContext`: src/modules/async-context/types/abstract.async-context.ts. The store is the one
-- that Node's AsyncLocalStorage gives at the moment, and the active span that of OpenTelemetry, whose
-- starting of a span is a parameter. A field that is undefined is the empty string where the code
-- does not tell the two apart; other fields of a context are spread as they are and left out.
pub mod Lifecycle
pub mod Continues
pub mod Process
use Prim.Native.String.{◌++◌ as concat}
use demo_hybrid_microservice.Common.{
  String, Bool, true, false, not, ◌||◌, List, [], ◌∷◌, Option, none, some, if◌then◌else◌, str_eq,
  Result, ok, error,
}
use demo_hybrid_microservice.Common.Methods.{
  Response, returns, throws, promises, Outcome, resolves, rejects, Answer, returned, threw, pending,
  Settlement, resolved, rejected,
}
use demo_hybrid_microservice.Logger.Spans.{TraceSpan}
use demo_hybrid_microservice.Telemetry.Propagation.{SpanContext, pad_start}

abbrev pub zero_trace_id : String
zero_trace_id = "00000000000000000000000000000000"

abbrev pub zero_span_id : String
zero_span_id = "0000000000000000"

-- `a || b`
abbrev pub or_text : String → String → String
or_text a b = if str_eq a "" then b else a

abbrev pub span_id_of : Option SpanContext → String
span_id_of none = ""
span_id_of (some c) = c.span_id

-- The active span's context, if its trace is none of zeros.
abbrev unless_zeros : SpanContext → Bool → Option SpanContext
unless_zeros c true = none
unless_zeros c false = some c

abbrev pub valid_active : Option SpanContext → Option SpanContext
valid_active none = none
valid_active (some c) = unless_zeros c (str_eq c.trace_id zero_trace_id)

-- The parent that a span is given when no span is active: the fields' own, or else the process's.
abbrev pub fallback_parent : Option SpanContext → TraceSpan → TraceSpan → Option SpanContext
fallback_parent active fields process =
    if not (str_eq fields.trace_id "")
    then some (record {
      trace_id = pad_start 32 fields.trace_id;
      span_id = pad_start 16 (or_text fields.parent_span_id zero_span_id);
      is_remote = true;
    })
    else (if str_eq process.trace_id ""
        then active
        else some
            (record { trace_id = process.trace_id; span_id = process.span_id; is_remote = false }))

module _ (start_span : Option SpanContext → SpanContext) where
  -- The fields that the block is run with, under a span that is active.
  abbrev pub under_active : SpanContext → TraceSpan → TraceSpan
  under_active active fields =
      let span = start_span (some active) in
      record {
        trace_id = span.trace_id;
        span_id = span.span_id;
        parent_span_id = active.span_id;
        initial_span_id = or_text fields.initial_span_id active.span_id;
      }

  abbrev pub under_fallback : Option SpanContext → TraceSpan → TraceSpan
  under_fallback parent fields =
      let span = start_span parent in
      record {
        trace_id = span.trace_id;
        span_id = span.span_id;
        parent_span_id = or_text fields.parent_span_id (span_id_of parent);
        initial_span_id = fields.initial_span_id;
      }

  -- `wrapWithTelemetry`, up to the running of the block.
  pub enriched_context : Option SpanContext → TraceSpan → TraceSpan → TraceSpan
  enriched_context active process fields = elim (valid_active active) [
    | some c ↦ under_active c fields
    | none ↦ under_fallback (fallback_parent active fields process) fields
  ]

-- What is called on a span.
pub data SpanCall : Type 0 where
  set_ok end_span : SpanCall
  record_exception set_error : String → SpanCall

-- An error is its text; `has_message` is false of null and undefined, which have no properties to read.
module _ (has_message : String → Bool) where
  -- `recordException` and `setStatus`, and the error that is thrown from then on.
  abbrev pub fail_span : String → List SpanCall × String
  fail_span e =
      if has_message e
      then (record_exception e ∷ set_error e ∷ [], e)
      else (record_exception e ∷ [], "TypeError")

  -- The `catch` of the block's own call: `span.end()` comes after the reading of the message.
  abbrev pub end_thrown : String → List SpanCall
  end_thrown e =
      if has_message e
      then record_exception e ∷ set_error e ∷ end_span ∷ []
      else record_exception e ∷ []

  -- `executeAndLifecycleSpan`, up to the return of the block.
  pub execute_and_lifecycle_span : Response → List SpanCall × Answer Unit
  execute_and_lifecycle_span (returns v) = (set_ok ∷ end_span ∷ [], returned v)
  execute_and_lifecycle_span (throws e) = (end_thrown e, threw (fail_span e).1)
  execute_and_lifecycle_span promises = ([], pending tt)

  abbrev then_end : List SpanCall → List SpanCall
  then_end [] = end_span ∷ []
  then_end (c ∷ cs) = c ∷ then_end cs

  -- The handlers of the block's promise.
  pub settle_span : Outcome → List SpanCall × Settlement
  settle_span (resolves v) = (set_ok ∷ end_span ∷ [], resolved v)
  settle_span (rejects e) = (then_end (fail_span e).0, rejected (fail_span e).1)

-- The variables of a context, by key.
abbrev pub Store : Type 0
Store = List (String × String)

abbrev pub lookup : String → Store → Option String
lookup k [] = none
lookup k (e ∷ es) = if str_eq k e.0 then some e.1 else lookup k es

abbrev pub put : String → String → Store → Store
put k v [] = (k, v) ∷ []
put k v (e ∷ es) = if str_eq k e.0 then (k, v) ∷ es else e ∷ put k v es

-- `EmptyAsyncContextError`
abbrev pub no_context : String
no_context = "Не задан контекст выполнения"

abbrev pub get : String → Option Store → Result (Option String)
get k none = error no_context
get k (some s) = ok (lookup k s)

abbrev pub get_safe : String → Option Store → Option String
get_safe k none = none
get_safe k (some s) = lookup k s

abbrev pub extend : Option Store → Store
extend none = []
extend (some s) = s

abbrev pub set : String → String → Option Store → Result Store
set k v none = error no_context
set k v (some s) = ok (put k v s)

abbrev put_all : Store → Store → Store
put_all [] s = s
put_all (e ∷ es) s = put_all es (put e.0 e.1 s)

abbrev pub set_multiple : Store → Option Store → Result Store
set_multiple values none = error no_context
set_multiple values (some s) = ok (put_all values s)
