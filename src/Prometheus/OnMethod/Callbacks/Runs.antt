-- ===== src/Prometheus/OnMethod/Callbacks/Runs.antt =====
-- Which timers are left by calls that overlap.
use demo_hybrid_microservice.Common.{
  ◌⊎◌, ℕ, ◌≡◌, ◌≢◌, refl, sym, ◌∙◌, subst, String, false, List, [], ◌∷◌, Option, none, some, ◌==◌,
  Result, ok, error, arith, Bool-cases, inl, inr,
}
use demo_hybrid_microservice.Prometheus.Config.{Labels, EventConfig, MetricConfig}
use demo_hybrid_microservice.Prometheus.Events.{Event, EventArgs, ManagerCall, Service, find}
use demo_hybrid_microservice.Prometheus.Events.Tickets.{callbacks-emit_idle}
use demo_hybrid_microservice.Common.Methods.{
  Response, returns, throws, promises, Outcome, Answer, returned, threw, pending,
}
use demo_hybrid_microservice.Prometheus.OnMethod.{
  OnMethod, Call, use_labels, before_config, ends_of, no_ends, with_labels, after_config,
  emit_built, failed, returned_after, respond, try_call, wrapped_method, settle,
}
use demo_hybrid_microservice.Prometheus.OnMethod.Callbacks.{
  Step, called, settles, Process, is_waiting, call_of, without, add_pending, started, settle_call,
  step, run,
}
use demo_hybrid_microservice.Prometheus.OnMethod.Callbacks.Clears.{
  IsTidy, Moves, Moves-trans, emit_built-Moves, Clears, finally_call-Clears, failed-Clears,
  settle-Clears,
}

module _ (refuses : ManagerCall → Option String) (metrics : MetricConfig) (m : OnMethod)
    (accepts : (c : ManagerCall) → refuses c ≡ none) (tidy : IsTidy refuses metrics m) where
  -- A call that has ended leaves no timer of its ticket.
  abbrev Leaves : ℕ → Answer Call → Service → Type 0
  Leaves t (pending c) r = c.ticket ≡ t
  Leaves t (returned v) r = find t r.callbacks ≡ none
  Leaves t (threw e) r = find t r.callbacks ≡ none

  abbrev Ends : ℕ → Service → Answer Call × Service → Type 0
  Ends t s r = Moves refuses metrics m t s r.1 × Leaves t r.0 r.1

  after-Ends :
      (v : String) (took : ℕ) (c : Call) (r : Result EventConfig) (s0 s : Service)
      → after_config refuses metrics m v took c.labels ≡ r
      → Clears refuses metrics m accepts tidy c.ticket s0 s
      → Ends c.ticket s0 (returned_after refuses metrics m v took c (none, s))
  after-Ends v took c (error e) s0 s made h = rw made (h.moves, h.cleared)
  after-Ends v took c (ok b) s0 s made h =
      let (es, buffered) = h.moves.buffered in
      let (idle1, idle2) = tidy.after v took c.labels b made in
      rw made (
        Moves-trans refuses metrics m c.ticket s0 s _ h.moves
            (emit_built-Moves refuses metrics m c.ticket _ false (ok b) s h.moves.buffered),
        callbacks-emit_idle refuses c.ticket _ b s es buffered idle1 idle2 ∙ h.cleared,
      )

  returned_after-Ends :
      (v : String) (took : ℕ) (c : Call) (s0 : Service) (r : Option String × Service)
      → Clears refuses metrics m accepts tidy c.ticket s0 r.1
      → Ends c.ticket s0 (returned_after refuses metrics m v took c r)
  returned_after-Ends v took c s0 (some e, s) h = (h.moves, h.cleared)
  returned_after-Ends v took c s0 (none, s) h = after-Ends v took c _ s0 s refl h

  respond-Ends :
      (response : Response) (took : ℕ) (c : Call) (s : Service)
      → ((es : List Event) × (s.buffer ≡ some es))
      → Ends c.ticket s (respond refuses metrics m response took c s)
  unfolding failed
  respond-Ends (returns v) took c s h =
      returned_after-Ends v took c s _
        (finally_call-Clears refuses metrics m accepts tidy took c s h)
  respond-Ends (throws e) took c s h =
      let k = failed-Clears refuses metrics m accepts tidy e took c s h in (k.moves, k.cleared)
  respond-Ends promises took c s h = (record { buffered = h; others = λ u ne. refl }, refl)

  try_call-Ends :
      (response : Response) (took t : ℕ) (l : Option Labels) (r : Result EventConfig) (s : Service)
      → ((es : List Event) × (s.buffer ≡ some es))
      → Ends t s (try_call refuses metrics m response took t l r s)
  unfolding failed
  try_call-Ends response took t l (error e) s h =
      let k =
        failed-Clears refuses metrics m accepts tidy e took
          (record { ticket = t; labels = l; ends = no_ends }) s h in
      (k.moves, k.cleared)
  try_call-Ends response took t l (ok b) s h =
      let args : EventArgs = record { error = none; result = none; duration = none; labels = l } in
      let s1 : Service = (emit_built refuses metrics m t args false (ok b) s).1 in
      let x = emit_built-Moves refuses metrics m t args false (ok b) s h in
      let (y, left) =
        respond-Ends response took (record { ticket = t; labels = l; ends = ends_of b }) s1
          x.buffered in
      (Moves-trans refuses metrics m t s s1 _ x y, left)

  -- The same of a call whose labels may throw, before anything is emitted.
  abbrev Quits : ℕ → Service → Answer Call × Service → Type 0
  Quits t s r = Moves refuses metrics m t s r.1 × (Leaves t r.0 r.1 ⊎ (r.1 ≡ s))

  wrapped_method-Quits :
      (response : Response) (took t : ℕ) (s : Service)
      → ((es : List Event) × (s.buffer ≡ some es))
      → Quits t s (wrapped_method refuses metrics m response took t s)
  unfolding wrapped_method
  wrapped_method-Quits response took t s h =
      with_labels-Quits (use_labels (m.labels metrics.labels) metrics.labels)
    where
      with_labels-Quits :
          (l : Result (Option Labels))
          → Quits t s (with_labels refuses metrics m response took t l s)
      with_labels-Quits (error e) = (record { buffered = h; others = λ u ne. refl }, inr refl)
      with_labels-Quits (ok l) =
          let (moves, left) =
            try_call-Ends response took t l (before_config refuses metrics m l) s h in
          (moves, inl left)

  record IsHeld (p : Process) : Type 0 where
    buffered : (es : List Event) × (p.service.buffer ≡ some es)
    held : (u : ℕ) → is_waiting u p.waiting ≡ false → find u p.service.callbacks ≡ none

  -- A ticket is the call's own or another one.
  ended-held :
      (t : ℕ) (s r : Service) (ws : List Call)
      → Moves refuses metrics m t s r
      → (find t r.callbacks ≡ none) ⊎ (r ≡ s)
      → ((u : ℕ) → is_waiting u ws ≡ false → find u s.callbacks ≡ none)
      → (u : ℕ) → is_waiting u ws ≡ false
      → find u r.callbacks ≡ none
  ended-held t s r ws moves (inr same) held u free = rw same (held u free)
  ended-held t s r ws moves (inl cleared) held u free = elim (Bool-cases (u == t)) [
    | inl own ↦
        let e : u ≡ t = ground (arith, own) in
        subst (λ x. find x r.callbacks ≡ none) (sym e) cleared
    | inr other ↦
        let ne : u ≢ t = (λ e. ground (arith, other, e)) in moves.others u ne ∙ held u free
  ]

  called-IsHeld :
      (answer : Answer Call) (t : ℕ) (r : Service) (p : Process)
      → Moves refuses metrics m t p.service r
      → Leaves t answer r ⊎ (r ≡ p.service)
      → IsHeld p
      → IsHeld (record { service = r; waiting = add_pending answer p.waiting })
  called-IsHeld (returned v) t r p moves left i = record {
    buffered = moves.buffered;
    held = ended-held t p.service r p.waiting moves left i.held;
  }
  called-IsHeld (threw e) t r p moves left i = record {
    buffered = moves.buffered;
    held = ended-held t p.service r p.waiting moves left i.held;
  }
  called-IsHeld (pending c) t r p moves (inr same) i = record {
    buffered = moves.buffered;
    held = λ u free. rw same (i.held u (ground (arith, free)));
  }
  called-IsHeld (pending c) t r p moves (inl own) i = record {
    buffered = moves.buffered;
    held = λ u free.
        let ne : u ≢ t = (λ e. ground (arith, own, e, free)) in
        moves.others u ne ∙ i.held u (ground (arith, free));
  }

  call_of-ticket : (t : ℕ) (ws : List Call) (c : Call) → call_of t ws ≡ some c → c.ticket ≡ t
  call_of-ticket t [] c h = ground (arith, h)
  call_of-ticket t (w ∷ ws) c h = elim (Bool-cases (w.ticket == t)) [
    | inl own ↦ ground (arith, own, h)
    | inr other ↦ call_of-ticket t ws c (ground (arith, other, h))
  ]

  waiting-without :
      (u t : ℕ) (ws : List Call) → u ≢ t → is_waiting u (without t ws) ≡ is_waiting u ws
  waiting-without u t [] ne = refl
  waiting-without u t (w ∷ ws) ne = ground (arith, ne, waiting-without u t ws ne)

  settle_call-IsHeld :
      (t : ℕ) (outcome : Outcome) (took : ℕ) (o : Option Call) (p : Process)
      → call_of t p.waiting ≡ o
      → IsHeld p
      → IsHeld (settle_call refuses metrics m t outcome took o p)
  settle_call-IsHeld t outcome took none p h i = i
  settle_call-IsHeld t outcome took (some c) p h i =
      let k = settle-Clears refuses metrics m accepts tidy outcome took c p.service i.buffered in
      let r : Service = (settle refuses metrics m outcome took c p.service).1 in
      let own = call_of-ticket t p.waiting c h in
      let moves = k.moves in
      record {
        buffered = moves.buffered;
        held = λ u free. elim (Bool-cases (u == t)) [
          | inl same ↦
              let e : c.ticket ≡ u = ground (arith, same, own) in
              subst (λ x. find x r.callbacks ≡ none) e k.cleared
          | inr other ↦
              let ne : u ≢ c.ticket = (λ e. ground (arith, other, e, own)) in
              let ne_t : u ≢ t = (λ e. ground (arith, other, e)) in
              moves.others u ne ∙ i.held u (sym (waiting-without u t p.waiting ne_t) ∙ free)
        ];
      }

  step-IsHeld : (e : Step) (p : Process) → IsHeld p → IsHeld (step refuses metrics m e p)
  step-IsHeld (called response took t) p i =
      let (moves, left) = wrapped_method-Quits response took t p.service i.buffered in
      called-IsHeld _ t _ p moves left i
  step-IsHeld (settles t outcome took) p i = settle_call-IsHeld t outcome took _ p refl i

  run-IsHeld : (es : List Step) (p : Process) → IsHeld p → IsHeld (run refuses metrics m es p)
  run-IsHeld [] p i = i
  run-IsHeld (e ∷ es) p i = run-IsHeld es (step refuses metrics m e p) (step-IsHeld e p i)

  -- If the metrics' manager throws nothing, every `finally` event can be made and its custom handler
  -- returns, and what the `after` option gives starts no timer, then however calls of the wrapped method
  -- overlap, the service keeps timers for calls only whose promise has not settled.
  pub run-started-callbacks :
      (es : List Step) (t : ℕ)
      → is_waiting t (run refuses metrics m es started).waiting ≡ false
      → find t (run refuses metrics m es started).service.callbacks ≡ none
  run-started-callbacks es t =
      let from_start : IsHeld started = record { buffered = ([], refl); held = λ u free. refl } in
      let i = run-IsHeld es started from_start in i.held t
