-- ===== src/Kafka/Producer/Records.antt =====
-- What the records that are given to kafkajs's producer hold.
use demo_hybrid_microservice.Common.{
  ◌≡◌, refl, String, Bool, true, false, List, [], ◌∷◌, map, Option, none, some, Result, ok, error,
  Property, missing, undefined, value, spread, any_of,
}
use demo_hybrid_microservice.Kafka.Producer.Wanted.{wanted}
use demo_hybrid_microservice.Kafka.Producer.{
  ProducerMode, KafkaMessage, Message, Data, one, many, ProducerParams, Serializer, HeadersBuilder,
  SendOptions, TopicMessages, ProducerRecord, read_property, build_producer_params, spread_params,
  TopicData, with_params, producer_record, producer_batch,
}

abbrev pub is_error : {A : Type 0} → Result A → Bool
is_error (ok a) = false
is_error (error e) = true

-- The results are these values, or one of them is an error.
abbrev Settles : {A : Type 0} → List (Result A) → Result (List A) → Type 0
Settles rs (ok xs) = map ok xs ≡ rs
Settles rs (error e) = any_of is_error rs ≡ true

abbrev pub items : Data → List KafkaMessage
items (one m) = m ∷ []
items (many ms) = ms

-- What a record has of each topic is what was made of the messages of each request, or one was not made.
abbrev pub Holds : List (String × List (Result Message)) → Result ProducerRecord → Type 0
Holds expected (ok r) = map (λ t. (t.topic, map ok t.messages)) r.topic_messages ≡ expected
Holds expected (error e) = any_of (λ (topic, ms). any_of is_error ms) expected ≡ true

module _ (own_serializer : Serializer) (own_header_builder : HeadersBuilder)
    (send_config : ProducerParams) (options : Option SendOptions) where
  -- What is wanted of a request: its topic, and one message for each item, in order.
  abbrev pub made_of : ProducerMode → TopicData → String × List (Result Message)
  made_of mode r = (
    r.topic,
    map (wanted own_serializer own_header_builder options mode r.topic) (items r.content),
  )

  -- The same of several topics.
  abbrev HoldsAll : List (String × List (Result Message)) → Result (List TopicMessages) → Type 0
  HoldsAll expected (ok ts) = map (λ t. (t.topic, map ok t.messages)) ts ≡ expected
  HoldsAll expected (error e) = any_of (λ (topic, ms). any_of is_error ms) expected ≡ true

read_property-wins :
    {A : Type 0} (own given : Property A) → spread own (read_property given) ≡ read_property given
read_property-wins own missing = refl
read_property-wins own undefined = refl
read_property-wins own (value a) = refl

build_producer_params-wins :
    (own : ProducerParams) (options : Option SendOptions)
    → spread_params own (build_producer_params options) ≡ build_producer_params options
build_producer_params-wins own none = refl
build_producer_params-wins own (some o) =
    rw
      (
        read_property-wins own.acks o.params.acks,
        read_property-wins own.timeout o.params.timeout,
        read_property-wins own.compression o.params.compression,
      )
      refl

module _ (own_serializer : Serializer) (own_header_builder : HeadersBuilder) where
  with_params-own :
      (a b : ProducerParams) (options : Option SendOptions) (r : Result (List TopicMessages))
      → with_params own_serializer own_header_builder a options r
        ≡ with_params own_serializer own_header_builder b options r
  with_params-own a b options (error e) = refl
  with_params-own a b options (ok ts) =
      rw (build_producer_params-wins a options, build_producer_params-wins b options) refl

  -- The acknowledgements, the timeout and the compression that a client is configured with for sending
  -- have no effect on what is sent, by itself or in a batch, whatever the options of the call are.
  pub send_config-unused :
      (a b : ProducerParams) (options : Option SendOptions) (r : TopicData) (rs : List TopicData)
      → (producer_record own_serializer own_header_builder a r options
          ≡ producer_record own_serializer own_header_builder b r options)
        × (producer_batch own_serializer own_header_builder a rs options
            ≡ producer_batch own_serializer own_header_builder b rs options)
  unfolding producer_record producer_batch
  send_config-unused a b options r rs =
      (with_params-own a b options _, with_params-own a b options _)
