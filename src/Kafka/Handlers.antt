-- ===== src/Kafka/Handlers.antt =====
-- `addHandler` of src/modules/kafka/kafka-server/services/kafka-server.base.ts: the patterns that are
-- consumed message by message and those that are consumed in batches.
pub mod Modes
use demo_hybrid_microservice.Common.{
  String, Bool, true, false, not, ◌||◌, List, [], ◌∷◌, ◌++◌, Option, none, some, if◌then◌else◌,
  str_eq, includes,
}

pub data ConsumerMode : Type 0 where
  each_message each_batch : ConsumerMode

pub record Extras : Type 0 where
  pub server_name : String
  pub mode : Option ConsumerMode

-- `registered` are the patterns handed to `super.addHandler` of NestJS, in order.
pub record Handlers : Type 0 where
  pub each_message_handlers : List String
  pub batch_message_handlers : List String
  pub registered : List String

abbrev pub no_handlers : Handlers
no_handlers = record { each_message_handlers = []; batch_message_handlers = []; registered = [] }

-- The `Error` of a subscription under both modes, with the mode that is refused.
pub data Conflict : Type 0 where
  cannot_be_used_as : ConsumerMode → String → Conflict

-- `if (!list.includes(pattern)) { list.push(pattern); }`.
abbrev pub push_new : List String → String → List String
push_new xs s = if includes xs s then xs else xs ++ s ∷ []

-- `extras.mode = ConsumerMode.EACH_MESSAGE` where it is undefined.
abbrev pub mode_of : Option ConsumerMode → ConsumerMode
mode_of none = each_message
mode_of (some m) = m

subscribe : Handlers → ConsumerMode → String → Handlers × Option Conflict
subscribe h each_batch s =
    if includes h.each_message_handlers s
    then (h, some (cannot_be_used_as each_batch s))
    else (record h { batch_message_handlers = push_new h.batch_message_handlers s }, none)
subscribe h each_message s =
    if includes h.batch_message_handlers s
    then (h, some (cannot_be_used_as each_message s))
    else (record h { each_message_handlers = push_new h.each_message_handlers s }, none)

-- `normalizePattern` is NestJS's. The error is thrown after the call of `super.addHandler`.
module _ (normalize_pattern : String → String) (server_name : String) where
  pub add_handler : Handlers → String → Bool → Extras → Handlers × Option Conflict
  unfolding subscribe
  add_handler h pattern is_event_handler extras =
      if not (str_eq extras.server_name server_name) || not is_event_handler
      then (h, none)
      else subscribe (record h { registered = h.registered ++ pattern ∷ [] }) (mode_of extras.mode)
          (normalize_pattern pattern)
