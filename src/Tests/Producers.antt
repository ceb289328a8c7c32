-- ===== src/Tests/Producers.antt =====
-- A Kafka client with two requests, a failed connection and a chain of causes.
use demo_hybrid_microservice.Common.{
  ℕ, ◌≡◌, refl, String, true, ◌||◌, List, [], ◌∷◌, none, some, ok, missing, value, pos, arith,
}
use demo_hybrid_microservice.Kafka.Producer.{
  KafkaMessage, one, many, ProducerParams, Serializer, HeadersBuilder, TopicData, producer_record,
  producer_batch,
}
use demo_hybrid_microservice.Kafka.Producer.Records.{send_config-unused}
use demo_hybrid_microservice.Kafka.Producer.Connection.{
  Event, called, refused, connect_ends, turn, close_called, close_ends, new_proxy, step, run,
}
use demo_hybrid_microservice.Kafka.Producer.Connection.Kept.{is_own, is_told, run-new_proxy-kept}
use demo_hybrid_microservice.Kafka.Producer.Connection.Stuck.{IsStuck, failed_connect-IsStuck}
use demo_hybrid_microservice.Kafka.Producer.Errors.{
  Exception, kafka_error, caused_error, Info, number_of_retries_exceeded, plain, connection, name,
  handle_error, end_request, external,
}
use demo_hybrid_microservice.Kafka.Producer.Errors.Causes.{end_request-labels}

abbrev serialize : Serializer
serialize mode topic m = ok (record { content = m; partition = missing; timestamp = missing })

abbrev no_headers : HeadersBuilder
no_headers none = []
no_headers (some hs) = hs

abbrev configured : ProducerParams
configured = record { acks = value (pos 1); timeout = value 5000; compression = missing }

abbrev unconfigured : ProducerParams
unconfigured = record { acks = missing; timeout = missing; compression = missing }

abbrev message : ℕ → KafkaMessage
message n = record { key = none; payload = n; headers = none }

abbrev orders : TopicData
orders = record { topic = "orders"; content = many (message 1 ∷ message 2 ∷ []) }

abbrev audit : TopicData
audit = record { topic = "audit"; content = one (message 3) }

send_config-unused_example :
    (producer_record serialize no_headers configured orders none
      ≡ producer_record serialize no_headers unconfigured orders none)
    × (producer_batch serialize no_headers configured (orders ∷ audit ∷ []) none
        ≡ producer_batch serialize no_headers unconfigured (orders ∷ audit ∷ []) none)
send_config-unused_example =
    send_config-unused serialize no_headers configured unconfigured none orders
      (orders ∷ audit ∷ [])

abbrev later : List Event
later = turn ∷ called none ∷ turn ∷ refused ∷ connect_ends 0 none ∷ []

failed_connect-IsStuck_example :
    IsStuck (run (called none ∷ connect_ends 0 (some "no broker") ∷ later) new_proxy)
failed_connect-IsStuck_example = failed_connect-IsStuck none "no broker" later refl

-- Two connections with a close between them.
abbrev reconnected : List Event
reconnected =
    called none ∷ connect_ends 0 none ∷ turn ∷ close_called ∷ close_ends none ∷ called none ∷ []

run-new_proxy-kept_example :
    (is_own 0 (run reconnected new_proxy).producer || is_told 0 (run reconnected new_proxy).log)
    ≡ true
unfolding run step
run-new_proxy-kept_example = run-new_proxy-kept reconnected 0 refl (omega arith)

abbrev info : String → Info
info n = record { message = "failed"; name = n; code = none; type_name = none }

abbrev chain : Exception
chain = caused_error number_of_retries_exceeded (info "KafkaJSNumberOfRetriesExceeded") (
    caused_error plain (info "KafkaJSError")
      (kafka_error connection (info "KafkaJSConnectionError")))

end_request-labels_example :
    ((end_request (some chain)).timers_ended ≡ 1)
    × ((end_request (some chain)).thrown ≡ some (handle_error chain))
    × ((end_request (some chain)).failures ≡ (name "KafkaJSConnectionError", external) ∷ [])
end_request-labels_example = end_request-labels chain
