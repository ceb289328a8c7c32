-- ===== src/Tests/Circles.antt =====
-- Objects that refer to themselves in a circle, and a trace that goes on.
use demo_hybrid_microservice.Common.{◌≡◌, refl, String, true, [], ◌∷◌, Option, none, some}
use demo_hybrid_microservice.Circular.{
  scalar, ref, array, object, ignored, Heap, template, circular_remove,
}
use demo_hybrid_microservice.Circular.Copies.{HoldsOnce, circular_remove-HoldsOnce}
use demo_hybrid_microservice.Headers.{Headers, Header, text, texts, set, lookup}
use demo_hybrid_microservice.Headers.Builders.{KafkaAsyncContext, http_build, kafka_build}
use demo_hybrid_microservice.Telemetry.Propagation.{SpanContext, extract}
use demo_hybrid_microservice.Telemetry.Propagation.Continues.{extract-build}

-- An object with itself, an array and a number; the array has the object and itself.
abbrev circle : Heap
circle =
    object (("self", ref 0) ∷ ("items", ref 1) ∷ ("size", scalar 2) ∷ [])
    ∷ array (ref 0 ∷ ref 1 ∷ ref 2 ∷ ref 2 ∷ [])
    ∷ ignored
    ∷ []

circular_remove-HoldsOnce_example :
    HoldsOnce 1 (circular_remove circle (template "Circular[* {{index}}]") (ref 0))
circular_remove-HoldsOnce_example =
    circular_remove-HoldsOnce circle (template "Circular[* {{index}}]") (ref 0) 1

abbrev read_text : Option Header → Option String
read_text none = none
read_text (some (text s)) = some s
read_text (some (texts ss)) = none

abbrev get_text : Headers → String → Option String
get_text headers name = read_text (lookup name headers)

abbrev set_text : Headers → String → String → Headers
set_text headers name s = set name (text s) headers

reads_text :
    (headers : Headers) (name s : String)
    → lookup name headers ≡ some (text s)
    → get_text headers name ≡ some s
reads_text headers name s h = rw h refl

abbrev context : KafkaAsyncContext String
context = record {
  general = record {
    trace_id = some "0123456789abcdef0123456789abcdef";
    span_id = some "fedcba9876543210";
    parent_span_id = none;
    initial_span_id = none;
    correlation_id = none;
    request_id = none;
  };
  reply_topic = none;
  reply_partition = none;
}

abbrev given : Headers
given = ("x-trace-id", text "0") ∷ ("accept", text "*/*") ∷ []

extract-build_example :
    let found : Option SpanContext = some (record {
      trace_id = "0123456789abcdef0123456789abcdef";
      span_id = "fedcba9876543210";
      is_remote = true;
    }) in
    (extract Headers get_text set_text none (http_build context.general given) ≡ found)
    × (extract Headers get_text set_text none (kafka_build String (λ s. s) context given) ≡ found)
extract-build_example =
    extract-build get_text set_text reads_text String (λ s. s) context given
      "0123456789abcdef0123456789abcdef" "fedcba9876543210" none refl refl refl refl
