-- ===== src/Kafka/Messages/Delivery.antt =====
-- Which messages reach a subscriber in either mode, and that the modes agree on a single message.
use demo_hybrid_microservice.Common.{
  ℕ, ◌≡◌, refl, String, Bool, ◌||◌, List, [], ◌∷◌, length, Option, none, some, Result, ok, error,
  any_of, if◌then◌else◌, ap, sym, append-nil, arith,
}
use demo_hybrid_microservice.Kafka.Handlers.{each_message, each_batch}
use demo_hybrid_microservice.Kafka.Messages.{
  AsyncContext, Packet, Message, Handler, Attempt, first_context, add_data, targets,
  handle_batch_one_message, all_messages, handled_by, handle_event, each_data, each_packet,
  handle_each_message, batch_data, batch_packets, handle_batch_messages,
}
use demo_hybrid_microservice.Kafka.Messages.Calls.{
  calls, handled_values, failed_values, is_broken, packet_data, all_data, expected_calls,
  expected_failure, packet_pattern, Does, call-Does, context-Does, catch-Reports, OneGathers,
  one_message-OneGathers, Gathers, all_messages-Gathers,
}

module _ (handlers : String → Option Handler) (start_hook : Attempt → Attempt)
    (runs_done : (a : Attempt) → start_hook a ≡ a) where
  handled_by-Does :
      (pattern : String) (h : Option Handler) (d : ℕ) (ds : List ℕ)
      → Does
          (handled_by handlers start_hook pattern h (d ∷ ds))
          (expected_calls h (d ∷ ds))
          (expected_failure h (d ∷ ds))
  unfolding handled_by
  handled_by-Does pattern none d ds = record {
    made = refl;
    handled = refl;
    failed = refl;
    thrown = refl;
  }
  handled_by-Does pattern (some h) d ds = rw runs_done (call-Does (d ∷ ds) (h.behaviour (d ∷ ds)))

  batch_data-Does :
      (topic : String) (ds : List ℕ)
      → Does
          (batch_data handlers start_hook topic ds)
          (expected_calls (handlers topic) ds)
          (expected_failure (handlers topic) ds)
  unfolding batch_data handle_event
  batch_data-Does topic [] = record { made = refl; handled = refl; failed = refl; thrown = refl }
  batch_data-Does topic (d ∷ ds) = handled_by-Does topic (handlers topic) d ds

  each_data-Does :
      (c : AsyncContext) (pattern : String) (o : Option ℕ)
      → Does
          (each_data handlers start_hook c pattern o)
          (expected_calls (handlers pattern) (add_data o []))
          (expected_failure (handlers pattern) (add_data o []))
  unfolding each_data handle_event
  each_data-Does c pattern none = record {
    made = refl;
    handled = refl;
    failed = refl;
    thrown = refl;
  }
  each_data-Does c pattern (some d) =
      context-Does c _ _ _ (handled_by-Does pattern (handlers pattern) d [])

  each_packet-Does :
      (r : Result (AsyncContext × Packet)) (broken : Bool) (ds : List ℕ) (topic pattern : String)
      → OneGathers r broken ds topic pattern
      → Does
          (each_packet handlers start_hook r)
          (if broken then [] else expected_calls (handlers pattern) ds)
          (broken || expected_failure (handlers pattern) ds)
  unfolding each_packet OneGathers
  each_packet-Does (error e) broken ds topic pattern g =
      rw g (record { made = refl; handled = refl; failed = refl; thrown = refl })
  each_packet-Does (ok (c, p)) broken ds topic pattern g =
      rw (g.0, sym g.1, sym g.2) (each_data-Does c p.pattern p.payload)

  batch_packets-Does :
      (topic : String) (r : Result (List (AsyncContext × Packet))) (broken : Bool) (ds : List ℕ)
      → Gathers r broken ds
      → Does
          (batch_packets handlers start_hook topic r)
          (if broken then [] else expected_calls (handlers topic) ds)
          (broken || expected_failure (handlers topic) ds)
  unfolding batch_packets Gathers
  batch_packets-Does topic (error e) broken ds g =
      rw g (record { made = refl; handled = refl; failed = refl; thrown = refl })
  batch_packets-Does topic (ok ps) broken ds g =
      rw (g.0, sym g.1) (context-Does (first_context ps) _ _ _ (batch_data-Does topic (targets ps)))

  -- If NestJS's hook runs its callback, then a message is counted once; if it can be adapted and
  -- deserialized, has data, and its pattern has a subscriber, the subscriber is called once with that
  -- data, and otherwise none is called; and one failure is counted exactly if it cannot be or the
  -- subscriber fails.
  pub handle_each_message_lem :
      (topic : String) (m : Message)
      → let es = handle_each_message handlers start_hook topic m in
        let h = handlers (packet_pattern topic m.deserialized) in
        let ds = packet_data m.deserialized in
        (handled_values es ≡ 1 ∷ [])
        × (calls es ≡ (if is_broken m then [] else expected_calls h ds))
        × (failed_values es ≡ (if is_broken m || expected_failure h ds then 1 ∷ [] else []))
  unfolding handle_each_message handle_batch_one_message
  handle_each_message_lem topic m =
      let r = catch-Reports topic each_message 1 _ _ _ (
        each_packet-Does _ _ _ topic _
          (one_message-OneGathers topic (handlers topic) m.adapted m.deserialized)) in
      (ap (◌∷◌ 1) r.handled, r.made, r.failed)

  -- If NestJS's hook runs its callback, then a batch is counted with the number of its messages; if all
  -- of them can be adapted and deserialized, and the topic has a subscriber, it is called once with the
  -- data of those that have data, in order, unless none has; otherwise it is not called; and the
  -- number of messages is counted as failed exactly if some cannot be or the subscriber fails.
  pub handle_batch_messages_lem :
      (topic : String) (ms : List Message)
      → let es = handle_batch_messages handlers start_hook topic ms in
        let h = handlers topic in
        (handled_values es ≡ length ms ∷ [])
        × (calls es ≡ (if any_of is_broken ms then [] else expected_calls h (all_data ms)))
        × (failed_values es ≡ (
            if any_of is_broken ms || expected_failure h (all_data ms) then length ms ∷ [] else []))
  unfolding handle_batch_messages
  handle_batch_messages_lem topic ms =
      let r = catch-Reports topic each_batch (length ms) _ _ _ (
        batch_packets-Does topic (all_messages (handlers topic) ms) _ _
          (all_messages-Gathers (handlers topic) ms)) in
      (ap (◌∷◌ (length ms)) r.handled, r.made, r.failed)

  -- If NestJS's hook runs its callback and the packet's pattern is the topic, then a batch of one
  -- message leads to the same calls and the same counts as the message by itself.
  pub batch_of_one :
      (topic : String) (m : Message)
      → packet_pattern topic m.deserialized ≡ topic
      → let one = handle_each_message handlers start_hook topic m in
        let batch = handle_batch_messages handlers start_hook topic (m ∷ []) in
        (calls batch ≡ calls one)
        × (handled_values batch ≡ handled_values one)
        × (failed_values batch ≡ failed_values one)
  batch_of_one topic m same =
      let one = handle_each_message_lem topic m in
      let batch = handle_batch_messages_lem topic (m ∷ []) in
      let all = append-nil (packet_data m.deserialized) in
      (
        ground (arith, one.1, batch.1, same, all),
        ground (arith, one.0, batch.0),
        ground (arith, one.2, batch.2, same, all),
      )
