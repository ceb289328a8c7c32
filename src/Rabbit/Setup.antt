-- ===== src/Rabbit/Setup.antt =====
-- The set-up of a channel: `setupChannel` of
-- src/modules/rabbit-mq/rabbit-mq-server/services/rabbit-mq-server.ts, as the calls of the broker that it
-- makes. Any of them may throw.
pub mod Queues
use demo_hybrid_microservice.Common.{
  ℕ, String, Bool, List, [], ◌∷◌, ◌++◌, map, Option, none, some, if◌then◌else◌, Property, missing,
  undefined, value, str_eq,
}
use demo_hybrid_microservice.Rabbit.Options.{ConsumerOptions, Nest, ParsedOptions, parse_options}

pub data ChannelCall : Type 0 where
  assert_queue : (queue : String) → ChannelCall
  assert_exchange : (exchange : String) → ChannelCall
  bind_queue : (queue exchange routing_key : String) → ChannelCall
  prefetch : (count : Option ℕ) (is_global : Bool) → ChannelCall
  consume : (queue : String) (no_ack : Bool) → ChannelCall

-- `IConsumerInfo`.
pub record ConsumerInfo : Type 0 where
  pub queue : String
  pub exchange : Option String
  pub routing : Option (List String)

-- The calls so far, `consumersInfo`, and the error that was thrown, if any.
pub record Setup : Type 0 where
  pub calls : List ChannelCall
  pub consumers_info : List (String × ConsumerInfo)
  pub thrown : Option String

-- `consumersInfo.set` and `.get(pattern)?.queue`.
abbrev pub set_info :
    String → ConsumerInfo → List (String × ConsumerInfo) → List (String × ConsumerInfo)
set_info key info [] = (key, info) ∷ []
set_info key info ((k, i) ∷ rest) =
    if str_eq k key then (k, info) ∷ rest else (k, i) ∷ set_info key info rest

abbrev pub get_queue : String → List (String × ConsumerInfo) → Option String
get_queue key [] = none
get_queue key ((k, i) ∷ rest) = if str_eq k key then some i.queue else get_queue key rest

-- `if (options.exchange)`.
abbrev exchange_of : Property String → Option String
exchange_of missing = none
exchange_of undefined = none
exchange_of (value e) = if str_eq e "" then none else some e

-- `if (routing.length)`.
abbrev routing_of : List String → Option (List String)
routing_of [] = none
routing_of (r ∷ rs) = some (r ∷ rs)

-- `consumerInfo` with the exchange, which is there before the exchange is asserted.
info_of : String → Option String → List String → ConsumerInfo
info_of queue none routing = record { queue = queue; exchange = none; routing = none }
info_of queue (some e) routing = record {
  queue = queue;
  exchange = some e;
  routing = routing_of routing;
}

-- `throws` says which calls throw, and `asserted` which name the broker gives to an asserted queue.
module _ (throws : ChannelCall → Option String) (asserted : String → String) where
  pub first_error : List ChannelCall → Option String
  first_error [] = none
  first_error (c ∷ cs) = elim (throws c) [ none ↦ first_error cs | some e ↦ some e ]

  issue_after : Option String → List ChannelCall → Setup → Setup
  issue_after (some e) cs s = s
  issue_after none cs s = record s { calls = s.calls ++ cs; thrown = first_error cs }

  -- An awaited `Promise.all` of calls, which are all made: nothing if an error was thrown before.
  pub issue : List ChannelCall → Setup → Setup
  unfolding issue_after
  issue cs s = issue_after s.thrown cs s

  set_after : Option String → String → ConsumerInfo → Setup → Setup
  set_after (some e) pattern info s = s
  set_after none pattern info s = record s {
    consumers_info = set_info pattern info s.consumers_info;
  }

  pub record_info : String → ConsumerInfo → Setup → Setup
  unfolding set_after
  record_info pattern info s = set_after s.thrown pattern info s

  -- `if (!noAssert)`: the queue's name and its call.
  abbrev queue_name : Bool → String → String
  queue_name no_assert queue = if no_assert then queue else asserted queue

  abbrev queue_calls : Bool → String → List ChannelCall
  queue_calls no_assert queue = if no_assert then [] else assert_queue queue ∷ []

  abbrev exchange_calls : Option String → List ChannelCall
  exchange_calls none = []
  exchange_calls (some e) = assert_exchange e ∷ []

  abbrev bind_calls : String → Option String → List String → List ChannelCall
  bind_calls queue none routing = []
  bind_calls queue (some e) routing = map (bind_queue queue e) routing

  -- All but the last call, given the queue's name, the exchange and `parseOptions`.
  pub prepare : String → String → Option String → ParsedOptions → Setup → Setup
  unfolding issue record_info info_of
  prepare pattern queue exchange o s =
      let s1 = issue (queue_calls o.no_assert o.queue) s in
      let s2 = issue (exchange_calls exchange) s1 in
      let s3 = issue (bind_calls queue exchange o.routing) s2 in
      let s4 = record_info pattern (info_of queue exchange o.routing) s3 in
      issue (prefetch o.prefetch_count o.is_global_prefetch_count ∷ []) s4

  pub setup_channel :
      Nest
      → ConsumerOptions
      → Option ConsumerOptions
      → String
      → List (String × ConsumerInfo)
      → Setup
  unfolding prepare
  setup_channel nest server extras pattern infos =
      let o = parse_options nest server extras in
      let queue = queue_name o.no_assert o.queue in
      issue (consume queue o.no_ack ∷ []) (
        prepare pattern queue (exchange_of o.options.exchange) o
          (record { calls = []; consumers_info = infos; thrown = none }))
