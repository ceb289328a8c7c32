-- ===== src/Prometheus/OnMethod/Callbacks/Clears.antt =====
-- What the parts of a call do to the callbacks of their own ticket and of others.
use demo_hybrid_microservice.Common.{
  ℕ, ◌≡◌, ◌≢◌, refl, ◌∙◌, String, Bool, true, false, List, [], ◌∷◌, ◌++◌, Option, none, some,
  Result, ok, error, arith,
}
use demo_hybrid_microservice.Prometheus.Config.{Labels, EventConfig, MetricConfig}
use demo_hybrid_microservice.Prometheus.Events.{
  Event, EventArgs, ManagerCall, Service, handle_event, find, is_started,
}
use demo_hybrid_microservice.Prometheus.Events.Passes.{throws_custom, handle_event-build}
use demo_hybrid_microservice.Prometheus.Events.Tickets.{
  event, buffer-emit, callbacks-emit_other, callbacks-emit_clear,
}
use demo_hybrid_microservice.Common.Methods.{Outcome, resolves, rejects}
use demo_hybrid_microservice.Prometheus.OnMethod.{
  OnMethod, Call, built, after_config, throw_config, finally_config, emit_built, finally_call,
  failed, reject, resolve, settle,
}

module _ (refuses : ManagerCall → Option String) (metrics : MetricConfig) (m : OnMethod) where
  -- Every `finally` event is made and its custom handler returns; what `after` gives starts no timer.
  pub record IsTidy : Type 0 where
    pub finally :
        (took : ℕ) (c : Call)
        → (b : EventConfig) × (finally_config refuses metrics m took c ≡ ok b)
          × (throws_custom b ≡ false)
    pub after :
        (v : String) (took : ℕ) (l : Option Labels) (b : EventConfig)
        → after_config refuses metrics m v took l ≡ ok b
        → (is_started b.histogram ≡ false) × (is_started b.summary ≡ false)

  -- The service goes on, with the callbacks of all other tickets.
  pub record Moves (t : ℕ) (s r : Service) : Type 0 where
    pub buffered : (es : List Event) × (r.buffer ≡ some es)
    pub others : (u : ℕ) → u ≢ t → find u r.callbacks ≡ find u s.callbacks

  pub Moves-trans : (t : ℕ) (a b c : Service) → Moves t a b → Moves t b c → Moves t a c
  Moves-trans t a b c x y = record {
    buffered = y.buffered;
    others = λ u ne. y.others u ne ∙ x.others u ne;
  }

  pub emit_built-Moves :
      (t : ℕ) (args : EventArgs) (clear : Bool) (r : Result EventConfig) (s : Service)
      → ((es : List Event) × (s.buffer ≡ some es))
      → Moves t s (emit_built refuses metrics m t args clear r s).1
  emit_built-Moves t args clear (error e) s h = record { buffered = h; others = λ u ne. refl }
  emit_built-Moves t args clear (ok c) s (es, h) = record {
    buffered = (es ++ event refuses t args clear c ∷ [], buffer-emit refuses t args clear c s es h);
    others = λ u ne. callbacks-emit_other refuses t u args clear c s es h ne;
  }

  module _ (accepts : (c : ManagerCall) → refuses c ≡ none) (tidy : IsTidy) where
    built-passes :
        (o : Result (Option EventConfig)) (l : Option Labels) (v : ℕ) (took : ℕ) (c : Call)
        (b : EventConfig) (s : Service)
        → built refuses metrics m o l (some v) c.ends ≡ ok b
        → throws_custom b ≡ false
        → (handle_event refuses b c.ticket true s).0 ≡ none
    built-passes (error e) l v took c b s h calm = ground (arith, h)
    built-passes (ok o) l v took c b s h calm =
        handle_event-build refuses accepts o metrics l _ _ b c.ticket true s h calm

    finally_call-clears :
        (took : ℕ) (c : Call) (s : Service)
        → ((es : List Event) × (s.buffer ≡ some es))
        → find c.ticket (finally_call refuses metrics m took c s).1.callbacks ≡ none
    finally_call-clears took c s (es, h) =
        let (b, made, calm) = tidy.finally took c in
        rw made (
          callbacks-emit_clear refuses c.ticket _ b s es h
            (λ r. built-passes (m.finally took c.labels) c.labels took took c b r made calm))

    -- A part of a call that leaves no timer behind.
    pub record Clears (t : ℕ) (s r : Service) : Type 0 where
      pub moves : Moves t s r
      pub cleared : find t r.callbacks ≡ none

    pub finally_call-Clears :
        (took : ℕ) (c : Call) (s : Service)
        → ((es : List Event) × (s.buffer ≡ some es))
        → Clears c.ticket s (finally_call refuses metrics m took c s).1
    finally_call-Clears took c s h = record {
      moves = emit_built-Moves c.ticket _ true _ s h;
      cleared = finally_call-clears took c s h;
    }

    -- With an event before it, whatever that does to the ticket's own timers.
    emitted-Clears :
        (took : ℕ) (args : EventArgs) (r : Result EventConfig) (c : Call) (s : Service)
        → ((es : List Event) × (s.buffer ≡ some es))
        → let s1 = (emit_built refuses metrics m c.ticket args false r s).1 in
          Clears c.ticket s (finally_call refuses metrics m took c s1).1
    emitted-Clears took args r c s h =
        let s1 : Service = (emit_built refuses metrics m c.ticket args false r s).1 in
        let x = emit_built-Moves c.ticket args false r s h in
        let y = finally_call-Clears took c s1 x.buffered in
        record {
          moves = Moves-trans c.ticket s s1 (finally_call refuses metrics m took c s1).1 x y.moves;
          cleared = y.cleared;
        }

    reject-Clears :
        (e : String) (took : ℕ) (c : Call) (s : Service)
        → ((es : List Event) × (s.buffer ≡ some es))
        → Clears c.ticket s (reject refuses metrics m e took c s).1
    reject-Clears e took c s h =
        emitted-Clears took _ (throw_config refuses metrics m e took c.labels) c s h

    pub failed-Clears :
        (e : String) (took : ℕ) (c : Call) (s : Service)
        → ((es : List Event) × (s.buffer ≡ some es))
        → Clears c.ticket s (failed refuses metrics m e took c s).1
    unfolding failed
    failed-Clears e took c s h =
        emitted-Clears took _ (throw_config refuses metrics m e took c.labels) c s h

    resolve-Clears :
        (v : String) (took : ℕ) (c : Call) (args : EventArgs) (r : Result EventConfig) (s : Service)
        → ((es : List Event) × (s.buffer ≡ some es))
        → Clears c.ticket s
            (resolve refuses metrics m v took c
              (emit_built refuses metrics m c.ticket args false r s)).1
    resolve-Clears v took c args (ok b) s h = emitted-Clears took args (ok b) c s h
    resolve-Clears v took c args (error e) s h = reject-Clears e took c s h

    pub settle-Clears :
        (outcome : Outcome) (took : ℕ) (c : Call) (s : Service)
        → ((es : List Event) × (s.buffer ≡ some es))
        → Clears c.ticket s (settle refuses metrics m outcome took c s).1
    unfolding settle
    settle-Clears (rejects e) took c s h = reject-Clears e took c s h
    settle-Clears (resolves v) took c s h =
        resolve-Clears v took c
          (record { error = none; result = some v; duration = some took; labels = c.labels })
          (after_config refuses metrics m v took c.labels) s h
