-- ===== src/Headers/RoundTrip.antt =====
-- A context that is sent in headers is received, and the credentials given with it are not sent.
use Prim.Native.String.{◌++◌ as concat}
use demo_hybrid_microservice.Common.{
  ◌≡◌, refl, ap, sym, ◌∙◌, String, false, [], ◌∷◌, Option, none, some, if◌then◌else◌, str_eq, arith,
}
use demo_hybrid_microservice.Headers.{
  Header, Headers, text, lookup, delete, search_header_as_string, normalize,
}
use demo_hybrid_microservice.Headers.Builders.{
  GeneralAsyncContext, KafkaAsyncContext, authorization, or_else, general_value, http_keys,
  http_name_as_header_name, active_span_id, kafka_keys, print_number, read_number,
  kafka_name_as_header_name, http_build, http_request_build, http_to_async_context, kafka_value,
  kafka_build, kafka_to_async_context,
}
use demo_hybrid_microservice.Headers.Normal.{
  IsNormal, search-normalize, delete-IsObject, spread_headers-IsObject,
}
use demo_hybrid_microservice.Headers.Lookup.{IsObject, lookup-set, lookup-delete, carried}
use demo_hybrid_microservice.Headers.Sent.{search-sent, lookup-sent}

or_else-carried :
    (v o : Option String) (d : String)
    → or_else (carried v o) (some d) ≡ carried v (or_else o (some d))
or_else-carried none o d = refl
or_else-carried (some s) o d = ground arith

-- One context received is another, but with values of a third that were sent.
pub record IsReceived (received given c : GeneralAsyncContext) : Type 0 where
  pub trace : received.trace_id ≡ given.trace_id
  pub span : received.span_id ≡ given.span_id
  pub parent : received.parent_span_id ≡ carried c.span_id given.parent_span_id
  pub initial : received.initial_span_id ≡ carried c.span_id given.initial_span_id
  pub correlation : received.correlation_id ≡ carried c.correlation_id given.correlation_id
  pub request : received.request_id ≡ carried c.request_id given.request_id

module _ (active : Option (String × String)) (new_trace_id new_span_id : String) where
  abbrev receive : Headers → GeneralAsyncContext
  receive = http_to_async_context active new_trace_id new_span_id

  -- The header of a name is read as a value sent with the headers given.
  abbrev Carries : Headers → Headers → String → Option String → Type 0
  Carries headers given name v =
      search_header_as_string headers (name ∷ [])
      ≡ carried v (search_header_as_string given (name ∷ []))

  receive-IsReceived :
      (c : GeneralAsyncContext) (headers given : Headers)
      → Carries headers given "x-span-id" c.span_id
      → Carries headers given "x-correlation-id" c.correlation_id
      → Carries headers given "x-request-id" c.request_id
      → IsReceived (receive headers) (receive given) c
  receive-IsReceived c headers given span correlation request =
      let span_id = active_span_id active new_trace_id new_span_id active in
      let from_parent = ap (λ o. or_else o (some span_id)) span ∙ or_else-carried c.span_id _ _ in
      record {
        trace = refl;
        span = refl;
        parent = from_parent;
        initial = from_parent;
        correlation = correlation;
        request = request;
      }

  -- Of the headers that `HttpHeadersBuilder` makes of a context and given headers, `toAsyncContext` reads
  -- the context's correlation and request identifiers, and its span as the parent and initial span,
  -- each unless it is not there or empty, when it reads what it reads of the given headers.
  pub http_build-IsReceived :
      (c : GeneralAsyncContext) (given : Headers)
      → IsReceived (receive (http_build c given)) (receive given) c
  unfolding http_build
  http_build-IsReceived c given =
      let search = search-sent http_name_as_header_name (general_value c) http_keys given in
      receive-IsReceived c _ given (search "x-span-id" c.span_id refl refl)
        (search "x-correlation-id" c.correlation_id refl refl)
        (search "x-request-id" c.request_id refl refl)

  module _ (Number : Type 0) (to_string : Number → String) (to_number : String → Number)
      (reads_back : (n : Number) → to_number (to_string n) ≡ n)
      (is_printed : (n : Number) → str_eq (to_string n) "" ≡ false) where
    abbrev receive_kafka : Headers → KafkaAsyncContext Number
    receive_kafka = kafka_to_async_context active new_trace_id new_span_id Number to_number

    abbrev pub or_number : Option Number → Option Number → Option Number
    or_number (some n) o = some n
    or_number none o = o

    abbrev read : Option String → Option Number
    read = read_number active new_trace_id new_span_id Number to_number

    read-carried :
        (o : Option Number) (given : Option String)
        → read (carried (print_number Number to_string o) given) ≡ or_number o (read given)
    read-carried none given = refl
    read-carried (some n) given = rw (is_printed n, reads_back n) refl

    -- If `Number` reads back what `toString` prints of a number, and that is not empty, no name stands twice
    -- in the headers given, and the headers given and those sent have names in lower case and neither
    -- names nor values with outer spaces, then of the normalized headers that `KafkaHeadersBuilder` makes
    -- of a context and given headers, the receiver reads the context's correlation and request
    -- identifiers, its span as the parent and initial span, its reply topic and its reply partition, each
    -- unless it is not there or the empty string, when the receiver reads what it reads of the given
    -- headers.
    pub kafka_build-IsReceived :
        (lower trim : String → String) (c : KafkaAsyncContext Number) (given : Headers)
        → IsObject given
        → IsNormal lower trim given
        → IsNormal lower trim (kafka_build Number to_string c given)
        → let received =
            receive_kafka (normalize lower trim (kafka_build Number to_string c given)) in
          let without = receive_kafka (normalize lower trim given) in
          IsReceived received.general without.general c.general
          × (received.reply_topic ≡ carried c.reply_topic without.reply_topic)
          × (received.reply_partition ≡ or_number c.reply_partition without.reply_partition)
    unfolding kafka_build
    kafka_build-IsReceived lower trim c given o normal normal2 =
        let partition = print_number Number to_string c.reply_partition in
        let hs = normalize lower trim (kafka_build Number to_string c given) in
        let gs = normalize lower trim given in
        let o2 : IsObject (kafka_build Number to_string c given) =
          spread_headers-IsObject (delete authorization given) _
            (delete-IsObject authorization given o) in
        let carries : (name : String) (v : Option String)
            → search_header_as_string (kafka_build Number to_string c given) (name ∷ [])
              ≡ carried v (search_header_as_string given (name ∷ []))
            → search_header_as_string hs (name ∷ [])
              ≡ carried v (search_header_as_string gs (name ∷ [])) =
          λ name v sent.
            search-normalize lower trim name (kafka_build Number to_string c given) o2 normal2
            ∙ sent
            ∙ ap (carried v) (sym (search-normalize lower trim name given o normal)) in
        let search =
          search-sent kafka_name_as_header_name (kafka_value Number to_string c)
            (kafka_keys Number to_string) given in
        (
          receive-IsReceived c.general hs gs
              (carries "x-span-id" c.general.span_id
                (search "x-span-id" c.general.span_id refl refl))
              (carries "x-correlation-id" c.general.correlation_id
                (search "x-correlation-id" c.general.correlation_id refl refl))
              (carries "x-request-id" c.general.request_id
                (search "x-request-id" c.general.request_id refl refl)),
          carries "x-reply-topic" c.reply_topic (search "x-reply-topic" c.reply_topic refl refl),
          ap read (
                carries "x-reply-partition" partition
                  (search "x-reply-partition" partition refl refl))
              ∙ read-carried c.reply_partition _,
        )

lookup-http_build :
    (c : GeneralAsyncContext) (given : Headers) → lookup authorization (http_build c given) ≡ none
unfolding http_build
lookup-http_build c given =
    lookup-sent http_name_as_header_name (general_value c) http_keys given authorization
    ∙ lookup-delete authorization authorization given

-- What a request with a token has to say who sends it.
abbrev pub bearer : Option String → Option Header
bearer none = none
bearer (some token) =
    if str_eq token "" then none else some (text (concat "Bearer" (concat " " token)))

-- Whatever headers are given, the headers of a Kafka message have none whose name is exactly
-- `authorization`, in lower case, and under this name those of an HTTP request have the one of the
-- request's token, if it has a token that is not empty, and else none.
pub lookup-authorization :
    (Number : Type 0) (to_string : Number → String) (c : KafkaAsyncContext Number) (given : Headers)
    (token : Option String)
    → (lookup authorization (kafka_build Number to_string c given) ≡ none)
      × (lookup authorization (http_request_build c.general given token) ≡ bearer token)
unfolding kafka_build
lookup-authorization Number to_string c given token = (
  lookup-sent kafka_name_as_header_name (kafka_value Number to_string c)
        (kafka_keys Number to_string) given authorization
      ∙ lookup-delete authorization authorization given,
  of_request c.general given token,
)
  where
    of_request :
        (c : GeneralAsyncContext) (given : Headers) (token : Option String)
        → lookup authorization (http_request_build c given token) ≡ bearer token
    of_request c given none = lookup-http_build c given
    of_request c given (some token) = ground (
      arith,
      lookup-http_build c given,
      lookup-set authorization authorization (text (concat "Bearer" (concat " " token)))
          (http_build c given),
    )
