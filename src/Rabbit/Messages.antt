-- ===== src/Rabbit/Messages.antt =====
-- The way of one message: `handleMessage`, `handleEvent` and `handleErrorInProcessMessage` of
-- src/modules/rabbit-mq/rabbit-mq-server/services/rabbit-mq-server.ts. What the deserializer, the
-- context and the subscriber's handler do is given with the message.
pub mod Settlement
use demo_hybrid_microservice.Common.{
  ℕ, String, Bool, true, false, List, [], ◌∷◌, ◌++◌, Option, none, some, if◌then◌else◌,
}
use demo_hybrid_microservice.Rabbit.Options.{ConsumerOptions, Nest, ParsedOptions, parse_options}

-- `packet.data` may be undefined: the message is not for this server.
pub data Deserialized : Type 0 where
  rejects : String → Deserialized
  packet : (has_data : Bool) → Deserialized

-- What the handler of a pattern does with the packet.
pub data Behaviour : Type 0 where
  throws : String → Behaviour
  returns : Behaviour
  stream_completes : Behaviour
  stream_errors : String → Behaviour

-- `MessageHandler` with its `extras?.consumer`.
pub record Handler : Type 0 where
  pub consumer : Option ConsumerOptions
  pub behaviour : Behaviour

-- `context_error` is what `toAsyncContext`, `setMultiple` or the context's constructor throws.
pub record Message : Type 0 where
  pub deserialized : Deserialized
  pub context_error : Option String

pub data Effect : Type 0 where
  count_handled : (queue : String) (routing : List String) → Effect
  count_failed : (queue : String) (routing : List String) (error_type : String) → Effect
  ack nack : Effect
  log_error : String → Effect
  warn_no_handler : Effect
  set_context call_handler processing_end : Effect

-- `queue` is `this.consumersInfo.get(pattern)?.queue`; `start_hook` is NestJS's `onProcessingStartHook`,
-- given what its callback does.
module _ (nest : Nest) (server : ConsumerOptions) (start_hook : List Effect → List Effect) where
  abbrev queue_of : Option String → String
  queue_of none = nest.default_queue
  queue_of (some q) = q

  abbrev unless_no_ack : Option ConsumerOptions → Effect → List Effect
  unless_no_ack extras e = if (parse_options nest server extras).no_ack then [] else e ∷ []

  -- `channel.nack(messageRef, false, false)`: the message is not requeued.
  pub handle_error_in_process_message :
      Option ConsumerOptions → Option String → String → List Effect
  handle_error_in_process_message extras queue error =
      log_error error
      ∷ count_failed (queue_of queue) (parse_options nest server extras).routing error
      ∷ unless_no_ack extras nack

  run_handler : Option String → Handler → Behaviour → List Effect
  unfolding handle_error_in_process_message
  run_handler queue h (throws e) = handle_error_in_process_message h.consumer queue e
  run_handler queue h returns = []
  run_handler queue h stream_completes = processing_end ∷ []
  run_handler queue h (stream_errors e) = handle_error_in_process_message h.consumer queue e

  pub handle_event : Option String → Option Handler → List Effect
  unfolding run_handler
  handle_event queue none = unless_no_ack none nack ++ warn_no_handler ∷ []
  handle_event queue (some h) = start_hook (call_handler ∷ run_handler queue h h.behaviour)

  process_message :
      Option ConsumerOptions
      → Option String
      → Option Handler
      → Deserialized
      → Option String
      → List Effect
  unfolding handle_event
  process_message extras queue handler (rejects e) c =
      handle_error_in_process_message extras queue e
  process_message extras queue handler (packet false) c = unless_no_ack extras ack
  process_message extras queue handler (packet true) (some e) =
      handle_error_in_process_message extras queue e
  process_message extras queue handler (packet true) none = set_context ∷ handle_event queue handler

  pub handle_message :
      Option ConsumerOptions → Option String → Option Handler → Message → List Effect
  unfolding process_message
  handle_message extras queue handler m =
      count_handled (queue_of queue) (parse_options nest server extras).routing
      ∷ process_message extras queue handler m.deserialized m.context_error

  -- `runConsumers` gives `setupChannel`, and so each message, the extras of the pattern's own handler.
  abbrev extras_of : Option Handler → Option ConsumerOptions
  extras_of none = none
  extras_of (some h) = h.consumer

  pub deliver : Option String → Option Handler → Message → List Effect
  unfolding handle_message
  deliver queue handler m = handle_message (extras_of handler) queue handler m
