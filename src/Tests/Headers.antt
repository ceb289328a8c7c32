-- ===== src/Tests/Headers.antt =====
-- A context sent to Kafka and to HTTP, and a batch of two traces.
use demo_hybrid_microservice.Common.{
  ◌/◌, ◌*◌, ◌≡◌, if◌then◌else◌, refl, String, Bool, true, false, List, [], ◌∷◌, none, some, str_eq,
  leb, filter_by,
}
use Prim.Native.String.{len, find}
use demo_hybrid_microservice.Headers.{Headers, text, texts, lookup, normalize, spread_headers, set}
use demo_hybrid_microservice.Headers.Builders.{
  KafkaAsyncContext, authorization, http_request_build, kafka_build, kafka_to_async_context,
  add_context_values,
}
use demo_hybrid_microservice.Headers.Lookup.{carried}
use demo_hybrid_microservice.Headers.RoundTrip.{
  IsReceived, kafka_build-IsReceived, lookup-authorization,
}
use demo_hybrid_microservice.Telemetry.Sampling.{Span, export}
use demo_hybrid_microservice.Telemetry.Sampling.Groups.{in_trace}
use demo_hybrid_microservice.Telemetry.Sampling.Traces.{exported, sampled, export-sampled}

-- Partitions that are printed as one digit.
data Partition : Type 0 where
  first second : Partition

abbrev print_partition : Partition → String
print_partition first = "0"
print_partition second = "1"

abbrev read_partition : String → Partition
read_partition s = if str_eq s "1" then second else first

partition_reads_back : (p : Partition) → read_partition (print_partition p) ≡ p
partition_reads_back first = refl
partition_reads_back second = refl

partition_is_printed : (p : Partition) → str_eq (print_partition p) "" ≡ false
partition_is_printed first = refl
partition_is_printed second = refl

abbrev context : KafkaAsyncContext Partition
context = record {
  general = record {
    trace_id = some "t1";
    span_id = some "s1";
    parent_span_id = none;
    initial_span_id = none;
    correlation_id = none;
    request_id = some "";
  };
  reply_topic = some "answers";
  reply_partition = some second;
}

abbrev given : Headers
given =
    ("authorization", text "Bearer x")
    ∷ ("x-correlation-id", texts ("a" ∷ "b" ∷ []))
    ∷ ("x-request-id", text "r0")
    ∷ []

-- Of these names and values.
abbrev lower : String → String
lower s = if str_eq s "X-Request-Id" then "x-request-id" else s

abbrev trim : String → String
trim s = if str_eq s " r0" then "r0" else s

kafka_build-IsReceived_example :
    let receive = kafka_to_async_context (some ("t1", "s2")) "t9" "s9" Partition read_partition in
    let received =
      receive (normalize lower trim (kafka_build Partition print_partition context given)) in
    let without = receive (normalize lower trim given) in
    IsReceived received.general without.general context.general
    × (received.reply_topic ≡ carried (some "answers") without.reply_topic)
    × (received.reply_partition ≡ some second)
unfolding lookup kafka_build spread_headers set add_context_values
kafka_build-IsReceived_example =
    kafka_build-IsReceived (some ("t1", "s2")) "t9" "s9" Partition print_partition read_partition
      partition_reads_back partition_is_printed lower trim context given (refl, (refl, (refl, tt)))
      refl refl

lookup-authorization_example :
    (lookup authorization (kafka_build Partition print_partition context given) ≡ none)
    × (lookup authorization (http_request_build context.general given (some "secret"))
        ≡ some (text "Bearer secret"))
lookup-authorization_example =
    lookup-authorization Partition print_partition context given (some "secret")

abbrev contains : String → String → Bool
contains s t = leb (find s t) (len s)

abbrev ok_span : Span
ok_span = record {
  name = "GET /orders";
  trace_id = "t1";
  span_id = "s1";
  is_error = false;
  start_time = (1700000000, 5);
  end_time = (1700000001, 5);
}

-- A long trace of two spans, and a failed span of an ignored endpoint.
abbrev spans : List Span
spans =
    ok_span
    ∷ record ok_span { name = "GET /health"; trace_id = "t2"; is_error = true }
    ∷ record ok_span { span_id = "s2"; end_time = (1700000003, 0) }
    ∷ []

abbrev export_all : List Span → List Span
export_all ss = exported (export (λ n. n / 256 * 256) (λ s. s) contains ("health" ∷ []) 1500 ss)

export-sampled_example :
    filter_by (in_trace "t1") (export_all spans)
    ≡ sampled
        (λ n. n / 256 * 256)
        (λ s. s)
        contains
        ("health" ∷ [])
        1500
        (filter_by (in_trace "t1") spans)
export-sampled_example =
    export-sampled (λ n. n / 256 * 256) (λ s. s) contains ("health" ∷ []) 1500 "t1" spans
