-- ===== src/Kafka/Messages.antt =====
-- The way of Kafka messages: `handleEachMessage`, `handleBatchMessages` and `handleBatchOneMessage` of
-- src/modules/kafka/kafka-server/services/kafka-server.service.ts and `handleEvent` of
-- kafka-server.base.ts. What the header adapter and the deserializer make of a message is given with it;
-- of the context and the message options, the three properties that the two methods set are kept.
pub mod Calls
pub mod Delivery
use demo_hybrid_microservice.Common.{
  ℕ, String, List, [], ◌∷◌, ◌++◌, length, Option, none, some, Result, ok, error,
}
use demo_hybrid_microservice.Kafka.Handlers.{ConsumerMode, each_message, each_batch}

pub record AsyncContext : Type 0 where
  pub correlation_id : Option String
  pub reply_topic : Option String
  pub reply_partition : Option ℕ

-- `IConsumerPacket`; the data is an object or undefined.
pub record Packet : Type 0 where
  pub pattern : String
  pub payload : Option ℕ

pub record Message : Type 0 where
  pub adapted : Result AsyncContext
  pub deserialized : Result Packet

-- What the subscriber's method does with the data that it is given.
pub data Behaviour : Type 0 where
  throws : String → Behaviour
  returns : Behaviour
  stream_completes : Behaviour
  stream_errors : String → Behaviour

-- `reply_topic` and `reply_partition` are of the `extras`.
pub record Handler : Type 0 where
  pub reply_topic : Option String
  pub reply_partition : Option ℕ
  pub behaviour : List ℕ → Behaviour

pub data Effect : Type 0 where
  count_handled : (topic : String) (mode : ConsumerMode) (value : ℕ) → Effect
  count_failed : (topic : String) (mode : ConsumerMode) (error_type : String) (value : ℕ) → Effect
  log_failed : ConsumerMode → String → Effect
  log_no_handler : String → Effect
  set_context : AsyncContext → Effect
  call_handler : (payload : List ℕ) → Effect
  processing_end : Effect

-- What has been done, and the error that was thrown, if any.
abbrev pub Attempt : Type 0
Attempt = List Effect × Option String

pub before : Effect → Attempt → Attempt
before e (es, thrown) = (e ∷ es, thrown)

-- `a ?? b`.
abbrev pub or_else : {A : Type 0} → Option A → Option A → Option A
or_else none b = b
or_else (some a) b = some a

-- `useMessageOptions`.
abbrev pub use_message_options : Option Handler → AsyncContext → AsyncContext
use_message_options none c = c
use_message_options (some h) c = record {
  correlation_id = c.correlation_id;
  reply_topic = or_else h.reply_topic c.reply_topic;
  reply_partition = or_else h.reply_partition c.reply_partition;
}

pub run_handler : Behaviour → Attempt
run_handler (throws e) = ([], some e)
run_handler returns = ([], none)
run_handler stream_completes = (processing_end ∷ [], none)
run_handler (stream_errors e) = ([], some e)

-- The `catch` block.
pub catch : String → ConsumerMode → ℕ → Attempt → List Effect
catch topic mode value (es, none) = es
catch topic mode value (es, some e) = es ++ log_failed mode e ∷ count_failed topic mode e value ∷ []

-- `handleBatchOneMessage`: the options in use and the packet.
pub one_message :
    Option Handler → Result AsyncContext → Result Packet → Result (AsyncContext × Packet)
one_message h (error e) p = error e
one_message h (ok c) (error e) = error e
one_message h (ok c) (ok p) = ok (use_message_options h c, p)

pub handle_batch_one_message : Option Handler → Message → Result (AsyncContext × Packet)
unfolding one_message
handle_batch_one_message h m = one_message h m.adapted m.deserialized

-- `Promise.all`: of deserializers that throw at once, the first error is the result.
and_then :
    Result (AsyncContext × Packet)
    → Result (List (AsyncContext × Packet))
    → Result (List (AsyncContext × Packet))
and_then (error e) rest = error e
and_then (ok p) (error e) = error e
and_then (ok p) (ok ps) = ok (p ∷ ps)

pub all_messages : Option Handler → List Message → Result (List (AsyncContext × Packet))
unfolding and_then
all_messages h [] = ok []
all_messages h (m ∷ ms) = and_then (handle_batch_one_message h m) (all_messages h ms)

-- `messages[0]?.messageOptions || {}`.
abbrev pub first_context : List (AsyncContext × Packet) → AsyncContext
first_context [] = record { correlation_id = none; reply_topic = none; reply_partition = none }
first_context ((c, p) ∷ ps) = c

abbrev pub add_data : Option ℕ → List ℕ → List ℕ
add_data none ds = ds
add_data (some d) ds = d ∷ ds

-- The data of the messages that are left by the filter.
abbrev pub targets : List (AsyncContext × Packet) → List ℕ
targets [] = []
targets ((c, p) ∷ ps) = add_data p.payload (targets ps)

-- `handlers` is `getHandlerByPattern`, and `start_hook` NestJS's `onProcessingStartHook`, given what its
-- callback does.
module _ (handlers : String → Option Handler) (start_hook : Attempt → Attempt) where
  handled_by : String → Option Handler → List ℕ → Attempt
  unfolding run_handler before
  handled_by pattern none payload = (log_no_handler pattern ∷ [], none)
  handled_by pattern (some h) payload =
      start_hook (before (call_handler payload) (run_handler (h.behaviour payload)))

  pub handle_event : String → List ℕ → Attempt
  unfolding handled_by
  handle_event pattern payload = handled_by pattern (handlers pattern) payload

  each_data : AsyncContext → String → Option ℕ → Attempt
  unfolding handle_event before
  each_data c pattern none = ([], none)
  each_data c pattern (some d) = before (set_context c) (handle_event pattern (d ∷ []))

  -- The `try` block of `handleEachMessage`.
  each_packet : Result (AsyncContext × Packet) → Attempt
  unfolding each_data
  each_packet (error e) = ([], some e)
  each_packet (ok (c, p)) = each_data c p.pattern p.payload

  -- It makes the packet as `handleBatchOneMessage` does.
  pub handle_each_message : String → Message → List Effect
  unfolding each_packet catch
  handle_each_message topic m =
      count_handled topic each_message 1
      ∷ catch topic each_message 1 (each_packet (handle_batch_one_message (handlers topic) m))

  batch_data : String → List ℕ → Attempt
  unfolding handle_event
  batch_data topic [] = ([], none)
  batch_data topic (d ∷ ds) = handle_event topic (d ∷ ds)

  -- The `try` block of `handleBatchMessages`.
  batch_packets : String → Result (List (AsyncContext × Packet)) → Attempt
  unfolding batch_data before
  batch_packets topic (error e) = ([], some e)
  batch_packets topic (ok ps) =
      before (set_context (first_context ps)) (batch_data topic (targets ps))

  pub handle_batch_messages : String → List Message → List Effect
  unfolding batch_packets catch
  handle_batch_messages topic ms =
      count_handled topic each_batch (length ms)
      ∷ catch topic each_batch (length ms) (batch_packets topic (all_messages (handlers topic) ms))
