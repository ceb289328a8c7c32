-- ===== src/Tests/Batches.antt =====
-- Two Kafka messages, one of them without data, and their subscriber.
use demo_hybrid_microservice.Common.{◌≡◌, refl, String, [], ◌∷◌, Option, some, none, ok}
use demo_hybrid_microservice.Kafka.Messages.{
  AsyncContext, Message, Handler, throws, Attempt, handle_each_message, handle_batch_messages,
}
use demo_hybrid_microservice.Kafka.Messages.Calls.{calls, handled_values, failed_values}
use demo_hybrid_microservice.Kafka.Messages.Delivery.{
  handle_each_message_lem, handle_batch_messages_lem, batch_of_one,
}

abbrev no_context : AsyncContext
no_context = record { correlation_id = none; reply_topic = none; reply_partition = none }

abbrev order_created : Message
order_created = record {
  adapted = ok no_context;
  deserialized = ok (record { pattern = "orders"; payload = some 7 });
}

abbrev tombstone : Message
tombstone = record {
  adapted = ok no_context;
  deserialized = ok (record { pattern = "orders"; payload = none });
}

abbrev failing_handler : Handler
failing_handler = record {
  reply_topic = none;
  reply_partition = some 3;
  behaviour = λ ds. throws "broken";
}

abbrev handlers : String → Option Handler
handlers topic = some failing_handler

abbrev run_hook : Attempt → Attempt
run_hook a = a

handle_each_message_lem_example :
    let es = handle_each_message handlers run_hook "orders" order_created in
    (handled_values es ≡ 1 ∷ []) × (calls es ≡ (7 ∷ []) ∷ []) × (failed_values es ≡ 1 ∷ [])
handle_each_message_lem_example =
    handle_each_message_lem handlers run_hook (λ a. refl) "orders" order_created

handle_batch_messages_lem_example :
    let es = handle_batch_messages handlers run_hook "orders" (tombstone ∷ order_created ∷ []) in
    (handled_values es ≡ 2 ∷ []) × (calls es ≡ (7 ∷ []) ∷ []) × (failed_values es ≡ 2 ∷ [])
handle_batch_messages_lem_example =
    handle_batch_messages_lem handlers run_hook (λ a. refl) "orders"
      (tombstone ∷ order_created ∷ [])

batch_of_one_example :
    let one = handle_each_message handlers run_hook "orders" order_created in
    let batch = handle_batch_messages handlers run_hook "orders" (order_created ∷ []) in
    (calls batch ≡ calls one)
    × (handled_values batch ≡ handled_values one)
    × (failed_values batch ≡ failed_values one)
batch_of_one_example = batch_of_one handlers run_hook (λ a. refl) "orders" order_created refl
