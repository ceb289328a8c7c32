-- ===== src/Rabbit/Messages/Settlement.antt =====
-- How each message is settled with the broker, and what the metrics count.
use demo_hybrid_microservice.Common.{
  suc, ◌≡◌, String, Bool, true, false, not, ◌||◌, List, [], ◌∷◌, Option, none, some, if◌then◌else◌,
  filter_by, count_by, arith, ap,
}
use demo_hybrid_microservice.Rabbit.Options.{ConsumerOptions, Nest, parse_options}
use demo_hybrid_microservice.Rabbit.Messages.{
  Deserialized, rejects, packet, Behaviour, throws, returns, stream_completes, stream_errors,
  Handler, Message, Effect, count_handled, count_failed, ack, nack, call_handler,
  handle_error_in_process_message, run_handler, handle_event, process_message, extras_of, deliver,
}

abbrev pub is_settlement : Effect → Bool
is_settlement ack = true
is_settlement nack = true
is_settlement _ = false

abbrev pub settlements : List Effect → List Effect
settlements es = filter_by is_settlement es

abbrev pub is_failure : Effect → Bool
is_failure (count_failed q r e) = true
is_failure _ = false

abbrev pub is_handled : Effect → Bool
is_handled (count_handled q r) = true
is_handled _ = false

abbrev pub is_call : Effect → Bool
is_call call_handler = true
is_call _ = false

abbrev pub breaks : Behaviour → Bool
breaks (throws e) = true
breaks returns = false
breaks stream_completes = false
breaks (stream_errors e) = true

-- The handler of the pattern, if there is one, ends with an error.
abbrev pub handler_fails : Option Handler → Bool
handler_fails none = false
handler_fails (some h) = breaks h.behaviour

abbrev pub is_missing : Option Handler → Bool
is_missing none = true
is_missing (some h) = false

abbrev pub is_some : Option String → Bool
is_some none = false
is_some (some e) = true

abbrev pub errs : Option Handler → Deserialized → Option String → Bool
errs handler (rejects e) c = true
errs handler (packet false) c = false
errs handler (packet true) c = is_some c || handler_fails handler

-- An error is thrown on the way of the message.
abbrev pub has_error : Option Handler → Message → Bool
has_error handler m = errs handler m.deserialized m.context_error

-- The deserializer gives a packet with no data: the message is not for this server.
abbrev pub is_empty : Deserialized → Bool
is_empty (rejects e) = false
is_empty (packet has_data) = not has_data

-- The message is settled by the server itself: with `ack` if it is not for it, with `nack` if an error
-- is thrown or its pattern has no handler, and else not at all: that is the handler's part.
abbrev pub expected : Option Handler → Message → List Effect
expected handler m =
    if is_empty m.deserialized
    then ack ∷ []
    else if has_error handler m || is_missing handler
    then nack ∷ []
    else []

module _ (nest : Nest) (server : ConsumerOptions) (start_hook : List Effect → List Effect) where
  abbrev pub no_ack_of : Option Handler → Bool
  no_ack_of handler = (parse_options nest server (extras_of nest server start_hook handler)).no_ack

  handle_error-settlements :
      (extras : Option ConsumerOptions) (queue : Option String) (e : String)
      → let es = handle_error_in_process_message nest server start_hook extras queue e in
        (settlements es ≡ (if (parse_options nest server extras).no_ack then [] else nack ∷ []))
        × (count_by is_failure es ≡ 1)
        × (count_by is_handled es ≡ 0)
  unfolding handle_error_in_process_message
  handle_error-settlements extras queue e = ground arith

  run_handler-settlements :
      (queue : Option String) (h : Handler) (b : Behaviour)
      → let es = run_handler nest server start_hook queue h b in
        (settlements es ≡ (
          if (parse_options nest server h.consumer).no_ack
          then []
          else if breaks b
          then nack ∷ []
          else []))
        × (count_by is_failure es ≡ (if breaks b then 1 else 0))
        × (count_by is_handled es ≡ 0)
  unfolding run_handler
  run_handler-settlements queue h (throws e) = handle_error-settlements h.consumer queue e
  run_handler-settlements queue h returns = ground arith
  run_handler-settlements queue h stream_completes = ground arith
  run_handler-settlements queue h (stream_errors e) = handle_error-settlements h.consumer queue e

  -- NestJS: the default `onProcessingStartHook` calls its callback.
  module _ (runs_done : (es : List Effect) → start_hook es ≡ es) where
    handle_event-settlements :
        (queue : Option String) (handler : Option Handler)
        → let es = handle_event nest server start_hook queue handler in
          (settlements es ≡ (
            if no_ack_of handler
            then []
            else if handler_fails handler || is_missing handler
            then nack ∷ []
            else []))
          × (count_by is_failure es ≡ (if handler_fails handler then 1 else 0))
          × (count_by is_handled es ≡ 0)
    unfolding handle_event
    handle_event-settlements queue none = ground arith
    handle_event-settlements queue (some h) =
        rw (runs_done (call_handler ∷ run_handler nest server start_hook queue h h.behaviour))
          (ground (arith, run_handler-settlements queue h h.behaviour))

    process_message-settlements :
        (queue : Option String) (handler : Option Handler) (d : Deserialized) (c : Option String)
        → let m : Message = record { deserialized = d; context_error = c } in
          let es =
            process_message nest server start_hook
              (extras_of nest server start_hook handler)
              queue
              handler
              d
              c in
          (settlements es ≡ (if no_ack_of handler then [] else expected handler m))
          × (count_by is_failure es ≡ (if has_error handler m then 1 else 0))
          × (count_by is_handled es ≡ 0)
    unfolding process_message
    process_message-settlements queue handler (rejects e) c =
        handle_error-settlements (extras_of nest server start_hook handler) queue e
    process_message-settlements queue handler (packet false) c = ground arith
    process_message-settlements queue handler (packet true) (some e) =
        handle_error-settlements (extras_of nest server start_hook handler) queue e
    process_message-settlements queue handler (packet true) none =
        handle_event-settlements queue handler

    -- If NestJS's hook runs its callback, then whatever the deserializer, the context and the handler
    -- do, the server settles no message with `noAck`; else it acknowledges a message that is not for it,
    -- rejects one for which an error is thrown or that has no handler, settles each of these once, and
    -- leaves any other message to its handler. The metric of handled messages counts it once, and that
    -- of failures once exactly if an error is thrown.
    pub deliver-settlements :
        (queue : Option String) (handler : Option Handler) (m : Message)
        → (settlements (deliver nest server start_hook queue handler m)
            ≡ (if no_ack_of handler then [] else expected handler m))
          × (count_by is_failure (deliver nest server start_hook queue handler m)
              ≡ (if has_error handler m then 1 else 0))
          × (count_by is_handled (deliver nest server start_hook queue handler m) ≡ 1)
    unfolding deliver
    deliver-settlements queue handler m =
        let p = process_message-settlements queue handler m.deserialized m.context_error in
        (p.0, p.1, ap suc p.2)
