-- ===== src/Prometheus/Events/Tickets.antt =====
-- What an emitted event does to the buffer, to the callbacks of other tickets and to those of its own.
use demo_hybrid_microservice.Common.{
  ℕ, ◌≡◌, ◌≢◌, refl, String, Bool, true, false, List, [], ◌∷◌, ◌++◌, Option, none, some, take,
  arith,
}
use demo_hybrid_microservice.Prometheus.Config.{EventConfig}
use demo_hybrid_microservice.Prometheus.Events.{
  Event, EventArgs, histogram, summary, EndCallback, ManagerCall, Service, find, set, delete,
  Handler, sequence, unless_thrown, event_steps, handle_event, handle_on_method, emit, is_started,
  handle_clear,
}
use demo_hybrid_microservice.Prometheus.Events.Keeps.{
  handle_event-Keeps, handle_event-Keeps_all, handle_timed-Keeps,
}

find-set_other :
    (u t : ℕ) (e : EndCallback) (cs : List (ℕ × EndCallback))
    → u ≢ t
    → find u (set t e cs) ≡ find u cs
find-set_other u t e [] ne = ground (arith, ne)
find-set_other u t e (c ∷ cs) ne = ground (arith, ne, find-set_other u t e cs ne)

find-delete_other :
    (u t : ℕ) (cs : List (ℕ × EndCallback)) → u ≢ t → find u (delete t cs) ≡ find u cs
find-delete_other u t [] ne = refl
find-delete_other u t (c ∷ cs) ne = ground (arith, ne, find-delete_other u t cs ne)

find-delete_same : (t : ℕ) (cs : List (ℕ × EndCallback)) → find t (delete t cs) ≡ none
find-delete_same t [] = refl
find-delete_same t (c ∷ cs) = ground (arith, find-delete_same t cs)

module _ (refuses : ManagerCall → Option String) where
  buffer-handle_event :
      (c : EventConfig) (t : ℕ) (clear : Bool) (s : Service)
      → (handle_event refuses c t clear s).1.buffer ≡ s.buffer
  buffer-handle_event c t clear =
      handle_event-Keeps_all (λ b cs. b) refuses t (λ b e cs. refl) (λ b cs. refl) c clear

  callbacks-handle_event_other :
      (c : EventConfig) (t u : ℕ) (clear : Bool) (s : Service)
      → u ≢ t
      → find u (handle_event refuses c t clear s).1.callbacks ≡ find u s.callbacks
  callbacks-handle_event_other c t u clear s ne =
      handle_event-Keeps_all (λ b cs. find u cs) refuses t (λ b e cs. find-set_other u t e cs ne)
        (λ b cs. find-delete_other u t cs ne) c clear s

  -- Without a timer to start, only a clear changes the ticket's own callbacks.
  callbacks-handle_event_idle :
      (c : EventConfig) (t : ℕ) (s : Service)
      → is_started c.histogram ≡ false
      → is_started c.summary ≡ false
      → find t (handle_event refuses c t false s).1.callbacks ≡ find t s.callbacks
  callbacks-handle_event_idle c t s h1 h2 =
      let view : Option (List Event) → List (ℕ × EndCallback) → Option EndCallback =
        λ b cs. find t cs in
      handle_event-Keeps view refuses t c false
        (handle_timed-Keeps view refuses t histogram c.histogram (λ m p h. ground (arith, h, h1)))
        (handle_timed-Keeps view refuses t summary c.summary (λ m p h. ground (arith, h, h2)))
        (λ r. refl) s

  -- A handler that clears the ticket if it comes through to its end.
  abbrev Clears : ℕ → Handler → Type 0
  Clears t m = (s : Service) → (m s).0 ≡ none → find t (m s).1.callbacks ≡ none

  unless_thrown-Clears :
      (t : ℕ) (r : Option String × Service) (k : Handler)
      → Clears t k
      → (unless_thrown k r).0 ≡ none
      → find t (unless_thrown k r).1.callbacks ≡ none
  unless_thrown-Clears t (none, s) k h e = h s e
  unless_thrown-Clears t (some x, s) k h e = ground (arith, e)

  sequence-Clears :
      (t : ℕ) (ms : List Handler) (m : Handler) → Clears t m → Clears t (sequence (ms ++ m ∷ []))
  sequence-Clears t [] m h s e = alone (m s) (h s) e
    where
      alone :
          (r : Option String × Service)
          → (r.0 ≡ none → find t r.1.callbacks ≡ none)
          → (unless_thrown (sequence []) r).0 ≡ none
          → find t (unless_thrown (sequence []) r).1.callbacks ≡ none
      alone (none, q) g e = g refl
      alone (some x, q) g e = g e
  sequence-Clears t (n ∷ ms) m h s e =
      unless_thrown-Clears t (n s) (sequence (ms ++ m ∷ [])) (sequence-Clears t ms m h) e

  handle_event-Clears : (c : EventConfig) (t : ℕ) → Clears t (handle_event refuses c t true)
  handle_event-Clears c t =
      sequence-Clears t (take 5 (event_steps refuses c t true)) (handle_clear t true)
        (λ s e. find-delete_same t s.callbacks)

  abbrev pub event : ℕ → EventArgs → Bool → EventConfig → Event
  event t args clear c = record { ticket = t; args = args; clear = clear; config = some c }

  pub buffer-emit :
      (t : ℕ) (args : EventArgs) (clear : Bool) (c : EventConfig) (s : Service) (es : List Event)
      → s.buffer ≡ some es
      → (emit refuses (event t args clear c) s).buffer ≡ some (es ++ event t args clear c ∷ [])
  unfolding emit handle_on_method
  buffer-emit t args clear c s es h =
      rw h (
        buffer-handle_event c t clear
          (record s { buffer = some (es ++ event t args clear c ∷ []) }))

  pub callbacks-emit_other :
      (t u : ℕ) (args : EventArgs) (clear : Bool) (c : EventConfig) (s : Service) (es : List Event)
      → s.buffer ≡ some es
      → u ≢ t
      → find u (emit refuses (event t args clear c) s).callbacks ≡ find u s.callbacks
  unfolding emit handle_on_method
  callbacks-emit_other t u args clear c s es h ne = rw h (
      callbacks-handle_event_other c t u clear
        (record s { buffer = some (es ++ event t args clear c ∷ []) }) ne)

  pub callbacks-emit_idle :
      (t : ℕ) (args : EventArgs) (c : EventConfig) (s : Service) (es : List Event)
      → s.buffer ≡ some es
      → is_started c.histogram ≡ false
      → is_started c.summary ≡ false
      → find t (emit refuses (event t args false c) s).callbacks ≡ find t s.callbacks
  unfolding emit handle_on_method
  callbacks-emit_idle t args c s es h h1 h2 = rw h (
      callbacks-handle_event_idle c t (record s { buffer = some (es ++ event t args false c ∷ []) })
        h1 h2)

  pub callbacks-emit_clear :
      (t : ℕ) (args : EventArgs) (c : EventConfig) (s : Service) (es : List Event)
      → s.buffer ≡ some es
      → ((r : Service) → (handle_event refuses c t true r).0 ≡ none)
      → find t (emit refuses (event t args true c) s).callbacks ≡ none
  unfolding emit handle_on_method
  callbacks-emit_clear t args c s es h through =
      let r : Service = record s { buffer = some (es ++ event t args true c ∷ []) } in
      rw h (handle_event-Clears c t r (through r))
