-- ===== src/Kafka/Producer.antt =====
-- `KafkaClientProxy` (`src/modules/kafka/kafka-client/services/kafka-client.proxy.ts`) with
-- `KafkaClientHelper`: how the messages of a request become the record that kafkajs's producer is given.
-- The payload of a message is a number that nothing here looks into; serializers and header builders
-- are parameters. A promise that `Promise.all` waits for is the result that it ends with.
use demo_hybrid_microservice.Common.{
  ℕ, ℤ, String, Bool, List, [], ◌∷◌, Option, none, some, if◌then◌else◌, Result, ok, error, Property,
  missing, undefined, value, spread, str_eq,
}
use demo_hybrid_microservice.Headers.{Headers}
pub mod Records
pub mod Wanted
pub mod Connection
pub mod Errors

pub data ProducerMode : Type 0 where
  send send_batch : ProducerMode

-- `IKafkaMessage`
pub record KafkaMessage : Type 0 where
  pub key : Option String
  pub payload : ℕ
  pub headers : Option Headers

-- `Message` of kafkajs.
pub record Message : Type 0 where
  pub content : KafkaMessage
  pub partition : Property ℕ
  pub timestamp : Property String

pub data Data : Type 0 where
  one : KafkaMessage → Data
  many : List KafkaMessage → Data

-- `IKafkaRequest`, whose fields a caller without types may leave out.
pub record Request : Type 0 where
  pub topic : Option String
  pub content : Option Data

pub record ProducerParams : Type 0 where
  pub acks : Property ℤ
  pub timeout : Property ℕ
  pub compression : Property ℕ

-- What a serializer makes of a packet, its topic and its data, in a mode.
abbrev pub Serializer : Type 0
Serializer = ProducerMode → String → KafkaMessage → Result Message

-- What a header builder makes of the headers of a message in the context at hand.
abbrev pub HeadersBuilder : Type 0
HeadersBuilder = Option Headers → Headers

pub record SendOptions : Type 0 where
  pub params : ProducerParams
  pub partition : Property ℕ
  pub timestamp : Property String
  pub serializer : Option Serializer
  pub header_builder : Option HeadersBuilder
  pub skip : Bool

pub record TopicMessages : Type 0 where
  pub topic : String
  pub messages : List Message

-- `ProducerRecord` and `ProducerBatch`: the second has the messages of several topics.
pub record ProducerRecord : Type 0 where
  pub topic_messages : List TopicMessages
  pub params : ProducerParams

-- `options?.name` of a property that may be missing.
abbrev pub read_property : {A : Type 0} → Property A → Property A
read_property missing = undefined
read_property undefined = undefined
read_property (value a) = value a

-- `KafkaClientHelper.buildProducerParams`
abbrev pub build_producer_params : Option SendOptions → ProducerParams
build_producer_params none = record {
  acks = undefined;
  timeout = undefined;
  compression = undefined;
}
build_producer_params (some o) = record {
  acks = read_property o.params.acks;
  timeout = read_property o.params.timeout;
  compression = read_property o.params.compression;
}

-- `{ ...left, ...right }`
abbrev pub spread_params : ProducerParams → ProducerParams → ProducerParams
spread_params left right = record {
  acks = spread left.acks right.acks;
  timeout = spread left.timeout right.timeout;
  compression = spread left.compression right.compression;
}

-- `{ ...message, ...KafkaClientHelper.buildMessageParams(options) }`
abbrev pub add_message_params : Option SendOptions → Message → Message
add_message_params none m = record m { partition = undefined; timestamp = undefined }
add_message_params (some o) m = record m {
  partition = read_property o.partition;
  timestamp = read_property o.timestamp;
}

abbrev pub add_params : Option SendOptions → Result Message → Result Message
add_params options (error e) = error e
add_params options (ok m) = ok (add_message_params options m)

-- `Promise.all`, where all of the promises end before it is called.
abbrev pub and_then : {A : Type 0} → Result A → Result (List A) → Result (List A)
and_then (error e) rest = error e
and_then (ok a) (error e) = error e
and_then (ok a) (ok rest) = ok (a ∷ rest)

unfoldable pub promise_all : {A : Type 0} → List (Result A) → Result (List A)
promise_all [] = ok []
promise_all (r ∷ rs) = and_then r (promise_all rs)

-- A request that has a topic and data.
pub record TopicData : Type 0 where
  pub topic : String
  pub content : Data

-- The guard of `send`, `!request || !request.topic || !request.data || (Array.isArray(request.data) &&
-- !request.data.length)`: `none` where it holds, and else the request.
abbrev pub check_topic : Option String → Data → Option TopicData
check_topic none content = none
check_topic (some topic) content =
    if str_eq topic "" then none else some (record { topic = topic; content = content })

abbrev pub check_data : Option String → Option Data → Option TopicData
check_data topic none = none
check_data topic (some (one m)) = check_topic topic (one m)
check_data topic (some (many [])) = none
check_data topic (some (many (m ∷ ms))) = check_topic topic (many (m ∷ ms))

abbrev pub check_request : Option Request → Option TopicData
check_request none = none
check_request (some r) = check_data r.topic r.content

-- The loop of `sendBatch` over its requests.
abbrev pub add_request : Option TopicData → Option (List TopicData) → Option (List TopicData)
add_request none rest = none
add_request (some r) none = none
add_request (some r) (some rs) = some (r ∷ rs)

unfoldable pub check_requests : List (Option Request) → Option (List TopicData)
check_requests [] = some []
check_requests (r ∷ rs) = add_request (check_request r) (check_requests rs)

-- The guard of `sendBatch`.
abbrev pub check_batch : Option (List (Option Request)) → Option (List TopicData)
check_batch none = none
check_batch (some []) = none
check_batch (some (r ∷ rs)) = check_requests (r ∷ rs)

-- `??`, with what the client has of its own.
abbrev pub or_own : {A : Type 0} → A → Option A → A
or_own own none = own
or_own own (some a) = a

module _ (own_serializer : Serializer) (own_header_builder : HeadersBuilder) where
  abbrev pub serializer_of : Option SendOptions → Serializer
  serializer_of none = own_serializer
  serializer_of (some o) = or_own own_serializer o.serializer

  abbrev pub headers_of : Option SendOptions → Option Headers → Option Headers
  headers_of none hs = some (own_header_builder hs)
  headers_of (some o) hs =
      if o.skip then hs else some (or_own own_header_builder o.header_builder hs)

  abbrev pub build_message :
      ProducerMode → String → KafkaMessage → Option SendOptions → Result Message
  build_message mode topic m options =
      add_params options
        (serializer_of options mode topic (record m { headers = headers_of options m.headers }))

  unfoldable pub build_messages :
      ProducerMode → String → List KafkaMessage → Option SendOptions → List (Result Message)
  build_messages mode topic [] options = []
  build_messages mode topic (m ∷ ms) options =
      build_message mode topic m options ∷ build_messages mode topic ms options

  abbrev pub request_as_messages :
      ProducerMode → String → Data → Option SendOptions → Result (List Message)
  request_as_messages mode topic (many ms) options =
      promise_all (build_messages mode topic ms options)
  request_as_messages mode topic (one m) options =
      promise_all (build_message mode topic m options ∷ [])

  -- The messages of one topic of a batch.
  abbrev pub with_topic : String → Result (List Message) → Result TopicMessages
  with_topic topic (error e) = error e
  with_topic topic (ok ms) = ok (record { topic = topic; messages = ms })

  unfoldable pub topic_messages_of :
      ProducerMode → List TopicData → Option SendOptions → List (Result TopicMessages)
  topic_messages_of mode [] options = []
  topic_messages_of mode (r ∷ rs) options =
      with_topic r.topic (request_as_messages mode r.topic r.content options)
      ∷ topic_messages_of mode rs options

  abbrev pub with_params :
      ProducerParams → Option SendOptions → Result (List TopicMessages) → Result ProducerRecord
  with_params send_config options (error e) = error e
  with_params send_config options (ok ts) = ok (record {
    topic_messages = ts;
    params = spread_params send_config (build_producer_params options);
  })

  -- `producerRecord` of `dispatchMessage`.
  unfoldable pub producer_record :
      ProducerParams → TopicData → Option SendOptions → Result ProducerRecord
  producer_record send_config r options =
      with_params send_config options (promise_all (topic_messages_of send (r ∷ []) options))

  -- `producerBatch` of `dispatchBatchMessage`.
  unfoldable pub producer_batch :
      ProducerParams → List TopicData → Option SendOptions → Result ProducerRecord
  producer_batch send_config rs options =
      with_params send_config options (promise_all (topic_messages_of send_batch rs options))
