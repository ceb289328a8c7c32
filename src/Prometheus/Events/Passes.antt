-- ===== src/Prometheus/Events/Passes.antt =====
-- When the handling of an event comes through to its end.
use demo_hybrid_microservice.Common.{
  ℕ, ◌≡◌, refl, String, Bool, true, false, ◌&&◌, List, [], ◌∷◌, Option, none, some, All, arith, ok,
}
use demo_hybrid_microservice.Prometheus.Config.{
  Labels, Params, Setting, off, on, given, CounterConfig, GaugeConfig, TimedConfig, EventConfig,
  MetricConfig, DefaultParams,
}
use demo_hybrid_microservice.Prometheus.Config.Build.{build}
use demo_hybrid_microservice.Prometheus.Config.Complete.{
  has, is_ready, is_observable, is_ready_timed, is_ready_counter, is_ready_gauge, is_complete,
  build-is_complete,
}
use demo_hybrid_microservice.Prometheus.Events.{
  Timed, histogram, summary, ManagerCall, Service, Handler, sequence, unless_thrown, event_steps,
  gauge_steps, timed_steps, start, observe, end_timer, handle_event, handle_counter, handle_gauge,
  handle_timed, handle_custom, timer_start, tell, with_metric, timer_of, find, raise,
}

abbrev pub throws_custom : EventConfig → Bool
throws_custom c = elim c.custom [ none ↦ false | some o ↦ has o ]

module _ (refuses : ManagerCall → Option String)
    (accepts : (c : ManagerCall) → refuses c ≡ none) where
  abbrev Passes : Handler → Type 0
  Passes m = (s : Service) → (m s).0 ≡ none

  unless_thrown-Passes :
      (r : Option String × Service) (k : Handler)
      → r.0 ≡ none
      → Passes k
      → (unless_thrown k r).0 ≡ none
  unless_thrown-Passes (none, s) k e h = h s
  unless_thrown-Passes (some x, s) k e h = e

  sequence-Passes : (ms : List Handler) → All Passes ms → Passes (sequence ms)
  sequence-Passes [] h s = refl
  sequence-Passes (m ∷ ms) h s =
      unless_thrown-Passes (m s) (sequence ms) (h.0 s) (sequence-Passes ms h.1)

  tell-Passes : (c : ManagerCall) → Passes (tell refuses c)
  tell-Passes c s = rw (accepts c) refl

  with_metric-Passes :
      (setting : Setting) (k : String → Option Params → Handler)
      → is_ready setting ≡ true
      → ((c : String) (p : Option Params) → Passes (k c p))
      → Passes (with_metric setting k)
  with_metric-Passes off k e h s = refl
  with_metric-Passes on k e h s = ground (arith, e)
  with_metric-Passes (given p) k e h s = with_config p.metric_config e
    where
      with_config :
          (o : Option String)
          → has o ≡ true
          → ((elim o as (λ _. Handler) [
            | none ↦ raise "metricConfig is required"
            | some c ↦ k c p.params
          ])
              s).0
            ≡ none
      with_config none g = ground (arith, g)
      with_config (some c) g = h c p.params s

  observe-Passes :
      (kind : Timed) (setting : Setting)
      → is_observable setting ≡ true
      → Passes (with_metric setting (observe refuses kind))
  observe-Passes kind off e s = refl
  observe-Passes kind on e s = ground (arith, e)
  observe-Passes kind (given p) e s = with_both p.metric_config p.params e
    where
      with_both :
          (o : Option String) (q : Option Params)
          → (has o && has q) ≡ true
          → ((elim o as (λ _. Handler) [
            | none ↦ raise "metricConfig is required"
            | some c ↦ observe refuses kind c q
          ])
              s).0
            ≡ none
      with_both none q g = ground (arith, g)
      with_both (some c) none g = ground (arith, g)
      with_both (some c) (some q) g = tell-Passes _ s

  end_timer-Passes :
      (kind : Timed) (e : Option (Option Labels)) (n : Option ℕ)
      → Passes (end_timer refuses kind e n)
  end_timer-Passes kind none n = λ s. refl
  end_timer-Passes kind (some l) none = λ s. refl
  end_timer-Passes kind (some l) (some n) = tell-Passes _

  start-Passes :
      (t : ℕ) (kind : Timed) (m : String) (p : Option Params) → Passes (start refuses t kind m p)
  start-Passes t kind m p s = rw (accepts (timer_start kind m p s.timers)) refl

  handle_timed-Passes :
      (kind : Timed) (c : Option TimedConfig) (t : ℕ)
      → is_ready_timed c ≡ true
      → Passes (handle_timed refuses kind c t)
  handle_timed-Passes kind none t e = λ s. refl
  handle_timed-Passes kind (some c) t e = sequence-Passes (timed_steps refuses kind c t) (
    with_metric-Passes c.start_timer (start refuses t kind) (ground (arith, e))
        (start-Passes t kind),
    (
      observe-Passes kind c.observe (ground (arith, e)),
      (λ s. end_timer-Passes kind c.end (timer_of kind (find t s.callbacks)) s, tt),
    ),
  )

  handle_counter-Passes :
      (c : Option CounterConfig) → is_ready_counter c ≡ true → Passes (handle_counter refuses c)
  handle_counter-Passes none e = λ s. refl
  handle_counter-Passes (some c) e = with_metric-Passes c.increment _ e (λ m p. tell-Passes _)

  handle_gauge-Passes :
      (c : Option GaugeConfig) → is_ready_gauge c ≡ true → Passes (handle_gauge refuses c)
  handle_gauge-Passes none e = λ s. refl
  handle_gauge-Passes (some c) e = sequence-Passes (gauge_steps refuses c) (
    with_metric-Passes c.increment _ (ground (arith, e)) (λ m p. tell-Passes _),
    (with_metric-Passes c.decrement _ (ground (arith, e)) (λ m p. tell-Passes _), tt),
  )

  handle_custom-Passes :
      (o : Option (Option String))
      → (elim o as (λ _. Bool) [ none ↦ false | some x ↦ has x ]) ≡ false
      → Passes (handle_custom o)
  handle_custom-Passes none e s = refl
  handle_custom-Passes (some none) e s = refl
  handle_custom-Passes (some (some x)) e s = ground (arith, e)

  handle_event-Passes :
      (c : EventConfig) (t : ℕ) (clear : Bool)
      → is_complete c ≡ true
      → throws_custom c ≡ false
      → Passes (handle_event refuses c t clear)
  handle_event-Passes c t clear e calm = sequence-Passes (event_steps refuses c t clear) (
    handle_counter-Passes c.counter (ground (arith, e)),
    (
      handle_gauge-Passes c.gauge (ground (arith, e)),
      (
        handle_timed-Passes histogram c.histogram t (ground (arith, e)),
        (
          handle_timed-Passes summary c.summary t (ground (arith, e)),
          (handle_custom-Passes c.custom calm, (λ s. refl, tt)),
        ),
      ),
    ),
  )

  -- If the metrics' manager throws nothing, then an event whose configuration the helpers have built
  -- is handled to its end, whatever the options and the defaults are, unless its custom handler throws.
  pub handle_event-build :
      (config : Option EventConfig) (metrics : MetricConfig) (labels : Option Labels)
      (h d : Option DefaultParams) (c : EventConfig) (t : ℕ) (clear : Bool) (s : Service)
      → build config metrics labels h d ≡ ok c
      → throws_custom c ≡ false
      → (handle_event refuses c t clear s).0 ≡ none
  handle_event-build config metrics labels h d c t clear s e calm =
      handle_event-Passes c t clear (build-is_complete config metrics labels h d c e) calm s
