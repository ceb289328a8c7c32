-- ===== src/Rabbit/Client/Publishing.antt =====
-- What `RabbitMqClientProxy` asks of its channel: the set-up, and the call that publishes a message.
-- `setupChannel`, the guard of `send` and `dispatchMessage` of
-- src/modules/rabbit-mq/rabbit-mq-client/services/rabbit-mq-client.proxy.ts. Serializers and builders of
-- publish options are parameters; of the publish options only the headers are kept.
use demo_hybrid_microservice.Common.{
  ℕ, String, Bool, true, false, not, ◌||◌, ◌&&◌, List, [], ◌∷◌, Option, none, some, if◌then◌else◌,
  str_eq,
}
use demo_hybrid_microservice.Rabbit.Setup.{ChannelCall, assert_queue, assert_exchange, bind_queue}
use demo_hybrid_microservice.Headers.{Headers, spread_headers}

-- `IRabbitMqProducerMessage`
pub record ProducerMessage : Type 0 where
  pub exchange : Option String
  pub routing_key : Option String
  pub queue : Option String
  pub content : ℕ
  pub headers : Headers

pub data Call : Type 0 where
  publish : (exchange routing_key : String) → (content : ℕ) → Headers → Call
  send_to_queue : (queue : String) → (content : ℕ) → Headers → Call

-- The guard of `send`, by the default queue of NestJS.
abbrev pub has_queue : String → Option String → Bool
has_queue default_queue none = false
has_queue default_queue (some q) = not (str_eq q default_queue)

abbrev pub has_exchange : Option String → Bool
has_exchange none = false
has_exchange (some e) = true

abbrev pub is_accepted : String → Option ProducerMessage → Bool
is_accepted default_queue none = false
is_accepted default_queue (some m) = has_queue default_queue m.queue || has_exchange m.exchange

abbrev or_default : String → Option String → String
or_default d none = d
or_default d (some s) = s

-- `serializedPacket.exchange ? publish : sendToQueue`
abbrev pub call_of : String → Option String → ProducerMessage → Headers → Call
call_of default_queue none m hs = send_to_queue (or_default default_queue m.queue) m.content hs
call_of default_queue (some e) m hs =
    if str_eq e ""
    then send_to_queue (or_default default_queue m.queue) m.content hs
    else publish e (or_default "" m.routing_key) m.content hs

module _ (default_queue : String) (own_headers : Headers) (build : Headers → Headers) where
  -- `publishOptions`, which the builder changes unless it is skipped.
  abbrev pub publish_options : Bool → Headers → Headers
  publish_options true headers = spread_headers own_headers headers
  publish_options false headers = build (spread_headers own_headers headers)

  -- `dispatchMessage` of a message as the serializer leaves it.
  unfoldable pub dispatched : Bool → ProducerMessage → Call
  dispatched skip m = call_of default_queue m.exchange m (publish_options skip m.headers)

-- The options of the producer that `setupChannel` reads, as the constructor completes them.
pub record ProducerOptions : Type 0 where
  pub no_assert : Bool
  pub queue : String
  pub exchange : Option String
  pub routing : List String

-- The calls made, and whether the last of them did not throw.
pub record Setup : Type 0 where
  pub calls : List ChannelCall
  pub completed : Bool

module _ (default_queue : String) (throws : ChannelCall → Bool) where
  abbrev pub is_queue : String → Bool
  is_queue queue = not (str_eq queue default_queue)

  -- One call that is waited for, and what follows it.
  abbrev pub then_setup : ChannelCall → Setup → Setup
  then_setup call rest =
      if throws call
      then record { calls = call ∷ []; completed = false }
      else record { calls = call ∷ rest.calls; completed = rest.completed }

  -- `Promise.all` of the bindings, all of which are made.
  abbrev pub bind_all : String → String → List String → Setup
  bind_all queue exchange [] = record { calls = []; completed = true }
  bind_all queue exchange (key ∷ keys) =
      let rest = bind_all queue exchange keys in
      record {
        calls = bind_queue queue exchange key ∷ rest.calls;
        completed = not (throws (bind_queue queue exchange key)) && rest.completed;
      }

  abbrev pub setup_exchange : Option String → ProducerOptions → Setup
  setup_exchange none o = record { calls = []; completed = true }
  setup_exchange (some exchange) o =
      let bound = bind_all o.queue exchange o.routing in
      let nothing : Setup = record { calls = []; completed = true } in
      if str_eq exchange ""
      then nothing
      else then_setup (assert_exchange exchange) (if is_queue o.queue then bound else nothing)

  -- `setupChannel`; where it is completed, `resolve` is called.
  unfoldable pub setup_channel : ProducerOptions → Setup
  setup_channel o =
      let exchange = setup_exchange o.exchange o in
      if not o.no_assert && is_queue o.queue
      then then_setup (assert_queue o.queue) exchange
      else exchange
