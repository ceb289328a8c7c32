-- ===== src/Tests/Consumers.antt =====
-- A Kafka server with one topic in each mode, and a RabbitMQ server with two queues.
use demo_hybrid_microservice.Common.{
  ◌≡◌, refl, ◌+◌, ◌≤◌, String, true, false, List, [], ◌∷◌, Option, some, none, Property, missing,
  undefined, value, count_by,
}
use demo_hybrid_microservice.Kafka.Handlers.{no_handlers, each_batch}
use demo_hybrid_microservice.Kafka.Handlers.Modes.{
  Registration, IsConsistent, add_all, add_all-no_handlers-IsConsistent,
}
use demo_hybrid_microservice.Kafka.Connection.{
  running, connect_each, Server, new_server, listens, close_ends, crashes, resumes, succeeds, fails,
  Event, run,
}
use demo_hybrid_microservice.Kafka.Connection.Reconnect.{IsSingle, run-new_server-IsSingle}
use demo_hybrid_microservice.Kafka.Connection.Stop.{work_left, steps_taken, run_stopped}
use demo_hybrid_microservice.Rabbit.Options.{no_options, Nest, parse_options}
use demo_hybrid_microservice.Rabbit.Messages.{
  Effect, Handler, Message, packet, throws, nack, deliver,
}
use demo_hybrid_microservice.Rabbit.Messages.Settlement.{
  settlements, is_failure, is_handled, deliver-settlements,
}
use demo_hybrid_microservice.Rabbit.Lifecycle
use demo_hybrid_microservice.Rabbit.Lifecycle.{
  at_most, infinite, start, connect_fails, connects, disconnects, all_created, throws_after,
  connect_failed,
}
use demo_hybrid_microservice.Rabbit.Lifecycle.Attempts.{is_connect_failed, never_gives_up}
use demo_hybrid_microservice.Rabbit.Lifecycle.Consumers.{Agrees, run-start-Agrees}

abbrev same : String → String
same s = s

abbrev orders : Registration
orders = record {
  pattern = "orders";
  is_event_handler = true;
  extras = record { server_name = "main"; mode = none };
}

abbrev order_batches : Registration
order_batches = record {
  pattern = "orders";
  is_event_handler = true;
  extras = record { server_name = "main"; mode = some each_batch };
}

add_all-no_handlers-IsConsistent_example :
    IsConsistent (add_all same "main" no_handlers (orders ∷ order_batches ∷ []))
add_all-no_handlers-IsConsistent_example =
    add_all-no_handlers-IsConsistent same "main" (orders ∷ order_batches ∷ [])

abbrev crashed_twice : List Event
crashed_twice =
    listens
    ∷ resumes 0 succeeds
    ∷ resumes 0 succeeds
    ∷ crashes false
    ∷ crashes false
    ∷ resumes 0 succeeds
    ∷ []

run-new_server-IsSingle_example : IsSingle (run (new_server true false) crashed_twice)
run-new_server-IsSingle_example = run-new_server-IsSingle true false crashed_twice

abbrev stopped_while_connecting : Server
stopped_while_connecting = record (new_server true true) {
  is_stop = true;
  is_connecting = true;
  client = true;
  tasks = record { origin = running; await = connect_each } ∷ [];
  closing = 1;
  attempts = 1;
}

run_stopped_example :
    let es = resumes 0 (fails "no broker") ∷ close_ends ∷ resumes 0 succeeds ∷ [] in
    ((run stopped_while_connecting es).is_stop ≡ true)
    × ((run stopped_while_connecting es).attempts ≡ stopped_while_connecting.attempts)
    × (steps_taken stopped_while_connecting es + work_left (run stopped_while_connecting es).tasks
        ≤ work_left stopped_while_connecting.tasks)
run_stopped_example =
    run_stopped stopped_while_connecting
      (resumes 0 (fails "no broker") ∷ close_ends ∷ resumes 0 succeeds ∷ []) refl refl

abbrev or_default : (A : Type 0) → Property A → Option A → Option A
or_default A missing d = d
or_default A undefined d = none
or_default A (value a) d = some a

abbrev rmq : Nest
rmq = record {
  get_options_prop = or_default;
  default_queue = "default";
  default_no_assert = false;
  default_no_ack = true;
  default_is_global_prefetch_count = false;
  default_prefetch_count = 0;
}

abbrev failing : Handler
failing = record {
  consumer = some (record no_options { no_ack = value false });
  behaviour = throws "broken";
}

abbrev created : Message
created = record { deserialized = packet true; context_error = none }

abbrev run_callback : List Effect → List Effect
run_callback es = es

deliver-settlements_example :
    let done = deliver rmq no_options run_callback (some "orders") (some failing) created in
    (settlements done ≡ nack ∷ []) × (count_by is_failure done ≡ 1) × (count_by is_handled done ≡ 1)
unfolding parse_options
deliver-settlements_example =
    deliver-settlements rmq no_options run_callback (λ es. refl) (some "orders") (some failing)
      created

never_gives_up_example :
    count_by is_connect_failed
      (Lifecycle.run (start (Lifecycle.new_server ("orders" ∷ []) (at_most 2))) (
        connect_fails (some "refused")
        ∷ connect_fails (some "refused")
        ∷ connect_fails (some "refused")
        ∷ [])).callbacks
    ≡ 0
never_gives_up_example = never_gives_up ("orders" ∷ []) 0 (
    connect_fails (some "refused")
    ∷ connect_fails (some "refused")
    ∷ connect_fails (some "refused")
    ∷ [])

run-start-Agrees_example : Agrees (
    Lifecycle.run (start (Lifecycle.new_server ("a" ∷ "b" ∷ []) infinite)) (
      connects (throws_after 1 "no channel")
      ∷ disconnects (some "reset")
      ∷ connects all_created
      ∷ []))
run-start-Agrees_example = run-start-Agrees ("a" ∷ "b" ∷ []) infinite (
    connects (throws_after 1 "no channel") ∷ disconnects (some "reset") ∷ connects all_created ∷ [])
