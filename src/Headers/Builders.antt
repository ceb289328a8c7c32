-- ===== src/Headers/Builders.antt =====
-- What a request's context puts into the headers of a message, and what the receiver reads:
-- `HttpHeadersBuilder`, `HttHeadersHelper` (`src/modules/http/http-common`), `HttpHeadersRequestBuilder`
-- (`src/modules/http/http-client`), `KafkaHeadersBuilder` and `KafkaHeadersHelper`
-- (`src/modules/kafka/kafka-common`). A partition is a JavaScript number, whose printing (`toString`) and
-- reading (`Number`) are parameters, as are the identifiers of OpenTelemetry's active span and the
-- random ones.
use Prim.Native.String.{◌++◌ as concat}
use demo_hybrid_microservice.Common.{
  String, List, [], ◌∷◌, Option, none, some, if◌then◌else◌, str_eq,
}
use demo_hybrid_microservice.Headers.{
  Header, Headers, text, lookup, set, delete, spread_headers, join, texts, search_header_as_string,
}

-- `IGeneralAsyncContext`
pub record GeneralAsyncContext : Type 0 where
  pub trace_id : Option String
  pub span_id : Option String
  pub parent_span_id : Option String
  pub initial_span_id : Option String
  pub correlation_id : Option String
  pub request_id : Option String

-- `IKafkaAsyncContext`
pub record KafkaAsyncContext (Number : Type 0) : Type 0 where
  pub general : GeneralAsyncContext
  pub reply_topic : Option String
  pub reply_partition : Option Number

abbrev pub authorization : String
authorization = "authorization"

abbrev pub http_name_as_header_name : String → Option String
http_name_as_header_name name =
    if str_eq name "traceId"
    then some "x-trace-id"
    else if str_eq name "spanId"
    then some "x-span-id"
    else if str_eq name "correlationId"
    then some "x-correlation-id"
    else if str_eq name "requestId"
    then some "x-request-id"
    else none

abbrev pub or_else : Option String → Option String → Option String
or_else (some s) o = some s
or_else none o = o

abbrev pub kafka_name_as_header_name : String → Option String
kafka_name_as_header_name name =
    or_else
      (if str_eq name "replyTopic"
        then some "x-reply-topic"
        else if str_eq name "replyPartition"
        then some "x-reply-partition"
        else none)
      (http_name_as_header_name name)

-- The value to send: the context's, or else the header's own.
abbrev pub value_to_send : Option String → Option Header → Option String
value_to_send (some s) h = some s
value_to_send none none = none
value_to_send none (some (text s)) = some s
value_to_send none (some (texts ss)) = some (join ss)

abbrev pub set_unless_empty : String → Option String → Headers → Headers
set_unless_empty name none tgt = tgt
set_unless_empty name (some s) tgt = if str_eq s "" then tgt else set name (text s) tgt

-- The body of the loop over the keys of the context, in each of the builders.
abbrev pub add_context_value : Headers → Option String → Option String → Headers → Headers
add_context_value headers none context_value tgt = tgt
add_context_value headers (some name) context_value tgt =
    set_unless_empty name (value_to_send context_value (lookup name headers)) tgt

module _ (name_as_header_name : String → Option String)
    (context_value : String → Option String) where
  unfoldable pub add_context_values : Headers → List String → Headers → Headers
  add_context_values headers [] tgt = tgt
  add_context_values headers (key ∷ keys) tgt =
      add_context_values headers keys
        (add_context_value headers (name_as_header_name key) (context_value key) tgt)

-- `asyncContext[key]`
abbrev pub general_value : GeneralAsyncContext → String → Option String
general_value c key =
    if str_eq key "traceId"
    then c.trace_id
    else if str_eq key "spanId"
    then c.span_id
    else if str_eq key "correlationId"
    then c.correlation_id
    else if str_eq key "requestId"
    then c.request_id
    else none

abbrev pub http_keys : List String
http_keys = "traceId" ∷ "spanId" ∷ "correlationId" ∷ "requestId" ∷ []

-- `HttpHeadersBuilder.build`
unfoldable pub http_build : GeneralAsyncContext → Headers → Headers
http_build c given =
    let headers = delete authorization given in
    spread_headers headers
      (add_context_values http_name_as_header_name (general_value c) headers http_keys [])

-- `HttpHeadersRequestBuilder.build`
abbrev pub http_request_build : GeneralAsyncContext → Headers → Option String → Headers
http_request_build c given none = http_build c given
http_request_build c given (some auth_token) =
    if str_eq auth_token ""
    then http_build c given
    else set authorization (text (concat "Bearer" (concat " " auth_token))) (http_build c given)

module _ (active : Option (String × String)) (new_trace_id new_span_id : String) where
  abbrev pub active_trace_id : Option (String × String) → String
  active_trace_id none = new_trace_id
  active_trace_id (some (trace_id, span_id)) = trace_id

  abbrev pub active_span_id : Option (String × String) → String
  active_span_id none = new_span_id
  active_span_id (some (trace_id, span_id)) = span_id

  -- `HttHeadersHelper.toAsyncContext`
  abbrev pub http_to_async_context : Headers → GeneralAsyncContext
  http_to_async_context headers =
      let span_id = active_span_id active in
      let parent = or_else (search_header_as_string headers ("x-span-id" ∷ [])) (some span_id) in
      record {
        trace_id = some (active_trace_id active);
        span_id = some span_id;
        parent_span_id = parent;
        initial_span_id = parent;
        correlation_id = search_header_as_string headers ("x-correlation-id" ∷ []);
        request_id = search_header_as_string headers ("x-request-id" ∷ []);
      }

module _ (Number : Type 0) (to_string : Number → String) where
  abbrev pub print_number : Option Number → Option String
  print_number none = none
  print_number (some n) = some (to_string n)

  abbrev pub kafka_value : KafkaAsyncContext Number → String → Option String
  kafka_value c key =
      if str_eq key "replyTopic"
      then c.reply_topic
      else if str_eq key "replyPartition"
      then print_number c.reply_partition
      else general_value c.general key

  abbrev pub kafka_keys : List String
  kafka_keys =
      "traceId" ∷ "spanId" ∷ "correlationId" ∷ "requestId" ∷ "replyTopic" ∷ "replyPartition" ∷ []

  -- `KafkaHeadersBuilder.build`
  unfoldable pub kafka_build : KafkaAsyncContext Number → Headers → Headers
  kafka_build c given =
      let headers = delete authorization given in
      spread_headers headers
        (add_context_values kafka_name_as_header_name (kafka_value c) headers kafka_keys [])

module _ (active : Option (String × String)) (new_trace_id new_span_id : String) (Number : Type 0)
    (to_number : String → Number) where
  abbrev pub read_number : Option String → Option Number
  read_number none = none
  read_number (some s) = some (to_number s)

  -- `KafkaHeadersHelper.toAsyncContext`
  abbrev pub kafka_to_async_context : Headers → KafkaAsyncContext Number
  kafka_to_async_context headers = record {
    general = http_to_async_context active new_trace_id new_span_id headers;
    reply_topic = search_header_as_string headers ("x-reply-topic" ∷ []);
    reply_partition = read_number (search_header_as_string headers ("x-reply-partition" ∷ []));
  }
