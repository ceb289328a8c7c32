-- ===== src/Kafka/Producer/Wanted.antt =====
-- The messages that a producer is to send of the items of a request.
use demo_hybrid_microservice.Common.{
  ◌≡◌, refl, if◌then◌else◌, String, Bool, false, List, [], ◌∷◌, map, Option, none, some, Result, ok,
  error, Property, missing, undefined, value,
}
use demo_hybrid_microservice.Kafka.Producer.{
  ProducerMode, KafkaMessage, Message, Serializer, HeadersBuilder, SendOptions, read_property,
  build_messages, build_message, headers_of, serializer_of, or_own, add_params, Headers,
}

module _ (own_serializer : Serializer) (own_header_builder : HeadersBuilder)
    (options : Option SendOptions) where
  abbrev is_skipping : Option SendOptions → Bool
  is_skipping none = false
  is_skipping (some o) = o.skip

  -- What the options of the call have of a kind, if there are options and they have it.
  abbrev asked : {A : Type 0} → (SendOptions → Option A) → Option SendOptions → Option A
  asked part none = none
  asked part (some o) = part o

  abbrev chosen : {A : Type 0} → A → Option A → A
  chosen own none = own
  chosen own (some a) = a

  -- A parameter of the options, which is written as undefined if they do not have it.
  abbrev parameter : {A : Type 0} → (SendOptions → Property A) → Option SendOptions → Property A
  parameter part none = undefined
  parameter part (some o) = value_of (part o)
    where
      value_of : {A : Type 0} → Property A → Property A
      value_of (value a) = value a
      value_of missing = undefined
      value_of undefined = undefined

  -- The message of one item: its own headers where the builder is skipped, and else those that the builder
  -- makes of them.
  abbrev wanted_item : KafkaMessage → KafkaMessage
  wanted_item m = record {
    key = m.key;
    payload = m.payload;
    headers =
        if is_skipping options
        then m.headers
        else some (chosen own_header_builder (asked (λ o. o.header_builder) options) m.headers);
  }

  abbrev with_parameters : Result Message → Result Message
  with_parameters (error e) = error e
  with_parameters (ok made) = ok (record {
    content = made.content;
    partition = parameter (λ o. o.partition) options;
    timestamp = parameter (λ o. o.timestamp) options;
  })

  abbrev pub wanted : ProducerMode → String → KafkaMessage → Result Message
  wanted mode topic m =
      with_parameters
        (chosen own_serializer (asked (λ o. o.serializer) options) mode topic (wanted_item m))

  headers_of-wanted :
      (hs : Option Headers)
      → headers_of own_serializer own_header_builder options hs ≡ (
          if is_skipping options
          then hs
          else some (chosen own_header_builder (asked (λ o. o.header_builder) options) hs))
  headers_of-wanted hs = by_options options
    where
      by_builder :
          (b : Option HeadersBuilder) → or_own own_header_builder b ≡ chosen own_header_builder b
      by_builder none = refl
      by_builder (some b) = refl

      by_options :
          (o : Option SendOptions)
          → headers_of own_serializer own_header_builder o hs ≡ (
              if is_skipping o
              then hs
              else some (chosen own_header_builder (asked (λ o. o.header_builder) o) hs))
      by_options none = refl
      by_options (some o) = rw (by_builder o.header_builder) refl

  serializer_of-chosen :
      serializer_of own_serializer own_header_builder options
      ≡ chosen own_serializer (asked (λ o. o.serializer) options)
  serializer_of-chosen = by_options options
    where
      by_serializer : (s : Option Serializer) → or_own own_serializer s ≡ chosen own_serializer s
      by_serializer none = refl
      by_serializer (some s) = refl

      by_options :
          (o : Option SendOptions)
          → serializer_of own_serializer own_header_builder o
            ≡ chosen own_serializer (asked (λ o. o.serializer) o)
      by_options none = refl
      by_options (some o) = by_serializer o.serializer

  add_params-wanted : (r : Result Message) → add_params options r ≡ with_parameters r
  add_params-wanted (error e) = refl
  add_params-wanted (ok made) = by_options options
    where
      value_of : {A : Type 0} → Property A → Property A
      value_of (value a) = value a
      value_of missing = undefined
      value_of undefined = undefined

      by_property : {A : Type 0} (p : Property A) → read_property p ≡ value_of p
      by_property missing = refl
      by_property undefined = refl
      by_property (value a) = refl

      by_options :
          (o : Option SendOptions)
          → add_params o (ok made)
            ≡ ok (record {
              content = made.content;
              partition = parameter (λ o. o.partition) o;
              timestamp = parameter (λ o. o.timestamp) o;
            })
      by_options none = refl
      by_options (some o) = rw (by_property o.partition, by_property o.timestamp) refl

  pub build_message-wanted :
      (mode : ProducerMode) (topic : String) (m : KafkaMessage)
      → build_message own_serializer own_header_builder mode topic m options ≡ wanted mode topic m
  build_message-wanted mode topic m =
      rw (headers_of-wanted m.headers, serializer_of-chosen) (add_params-wanted _)

  pub build_messages-wanted :
      (mode : ProducerMode) (topic : String) (ms : List KafkaMessage)
      → build_messages own_serializer own_header_builder mode topic ms options
        ≡ map (wanted mode topic) ms
  unfolding build_messages
  build_messages-wanted mode topic [] = refl
  build_messages-wanted mode topic (m ∷ ms) =
      rw (build_message-wanted mode topic m, build_messages-wanted mode topic ms) refl
