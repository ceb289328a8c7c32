-- ===== src/Tests/Publishers.antt =====
-- A RabbitMQ client that connects, loses its connection and is closed, and the set-up of a channel.
use demo_hybrid_microservice.Common.{◌≡◌, refl, String, false, List, [], ◌∷◌, none, some, any_of}
use demo_hybrid_microservice.Rabbit.Client.{
  Event, called, connects, disconnects, connect_fails, set_up_ends, goes_on, new_client, Job, run,
}
use demo_hybrid_microservice.Rabbit.Client.Publishing.{ProducerMessage, dispatched}
use demo_hybrid_microservice.Rabbit.Client.Ready.{is_no_channel}
use demo_hybrid_microservice.Rabbit.Client.Channels.{run-new_client-has_channel}

abbrev message : ProducerMessage
message = record {
  exchange = some "events";
  routing_key = none;
  queue = none;
  content = 7;
  headers = [];
}

abbrev job : Job
job = some (dispatched "" [] (λ hs. hs) false message)

abbrev urls : List String
urls = "a" ∷ "b" ∷ []

abbrev reconnecting : List Event
reconnecting =
    called job
    ∷ connect_fails (some "a") "refused"
    ∷ connects
    ∷ set_up_ends 1
    ∷ goes_on 0
    ∷ disconnects "reset"
    ∷ called job
    ∷ goes_on 0
    ∷ connects
    ∷ called job
    ∷ goes_on 0
    ∷ []

run-new_client-has_channel_example :
    any_of is_no_channel (run urls reconnecting new_client).log ≡ false
run-new_client-has_channel_example = run-new_client-has_channel urls reconnecting refl
