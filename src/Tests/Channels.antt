-- ===== src/Tests/Channels.antt =====
-- A channel bound to an exchange by two routing keys, whose binding may fail.
use demo_hybrid_microservice.Common.{
  ◌≡◌, String, true, false, [], ◌∷◌, All, Option, some, none, Property, missing, undefined, value,
}
use demo_hybrid_microservice.Rabbit.Options.{ConsumerOptions, no_options, many, Nest}
use demo_hybrid_microservice.Rabbit.Setup.{ChannelCall, bind_queue, get_queue, setup_channel}
use demo_hybrid_microservice.Rabbit.Setup.Queues.{consumed, setup_channel-consumes_known}

abbrev given_or : (A : Type 0) → Property A → Option A → Option A
given_or A missing d = d
given_or A undefined d = none
given_or A (value a) d = some a

abbrev broker_defaults : Nest
broker_defaults = record {
  get_options_prop = given_or;
  default_queue = "default";
  default_no_assert = false;
  default_no_ack = true;
  default_is_global_prefetch_count = false;
  default_prefetch_count = 0;
}

abbrev topic_options : ConsumerOptions
topic_options = record no_options {
  exchange = value "events";
  routing = value (many ("a.*" ∷ "b.*" ∷ []));
}

abbrev unbound : ChannelCall → Option String
unbound (bind_queue queue exchange routing_key) = some "no exchange"
unbound _ = none

abbrev generated : String → String
generated queue = "amq.gen-1"

setup_channel-consumes_known_example :
    let s = setup_channel unbound generated broker_defaults topic_options none "orders" [] in
    All (λ q. get_queue "orders" s.consumers_info ≡ some q) (consumed s.calls)
setup_channel-consumes_known_example =
    setup_channel-consumes_known unbound generated broker_defaults topic_options none "orders" []
