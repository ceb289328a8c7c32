-- ===== src/Prometheus/Events/Keeps.antt =====
-- What handling an event leaves as it is.
use demo_hybrid_microservice.Common.{
  ℕ, suc, ◌≡◌, refl, ◌∙◌, String, Bool, true, false, List, [], ◌∷◌, Option, none, some, All,
}
use demo_hybrid_microservice.Prometheus.Config.{
  Labels, Params, Setting, off, on, given, CounterConfig, GaugeConfig, TimedConfig, EventConfig,
}
use demo_hybrid_microservice.Prometheus.Events.{
  Event, Timed, EndCallback, ManagerCall, Service, find, set, delete, Handler, sequence,
  event_steps, gauge_steps, timed_steps, raise, unless_thrown, add_end_callback, accept, histogram,
  summary, with_metric, handle_clear, handle_custom, tell, handle_counter, handle_gauge, start,
  observe, end_timer, handle_timed, handle_event, handle_histogram, handle_summary, is_started,
  with_timer, timer_of,
}

-- A view of the buffer and the callbacks that the callbacks of one ticket do not change.
module _ {V : Type 0} (view : Option (List Event) → List (ℕ × EndCallback) → V) where
  abbrev pub look : Service → V
  look s = view s.buffer s.callbacks

  abbrev pub Keeps : Handler → Type 0
  Keeps m = (s : Service) → look (m s).1 ≡ look s

  unless_thrown-look :
      (r : Option String × Service) (k : Handler) → Keeps k → look (unless_thrown k r).1 ≡ look r.1
  unless_thrown-look (none, s) k keeps = keeps s
  unless_thrown-look (some e, s) k keeps = refl

  sequence-Keeps : (ms : List Handler) → All Keeps ms → Keeps (sequence ms)
  sequence-Keeps [] h s = refl
  sequence-Keeps (m ∷ ms) h s =
      unless_thrown-look (m s) (sequence ms) (sequence-Keeps ms h.1) ∙ h.0 s

  with_metric-Keeps :
      (setting : Setting) (k : String → Option Params → Handler)
      → ((c : String) (p : Option Params) → Keeps (k c p))
      → Keeps (with_metric setting k)
  with_metric-Keeps off k h s = refl
  with_metric-Keeps on k h s = refl
  with_metric-Keeps (given p) k h s = with_config p.metric_config
    where
      with_config :
          (o : Option String)
          → look
              ((elim o as (λ _. Handler) [
                | none ↦ raise "metricConfig is required"
                | some c ↦ k c p.params
              ])
                s).1
            ≡ look s
      with_config none = refl
      with_config (some c) = h c p.params s

  handle_custom-Keeps : (c : Option (Option String)) → Keeps (handle_custom c)
  handle_custom-Keeps none s = refl
  handle_custom-Keeps (some none) s = refl
  handle_custom-Keeps (some (some e)) s = refl

  module _ (refuses : ManagerCall → Option String) (t : ℕ) where
    accept-Keeps : (c : ManagerCall) (o : Option String) → Keeps (accept refuses c o)
    accept-Keeps c none s = refl
    accept-Keeps c (some e) s = refl

    tell-Keeps : (c : ManagerCall) → Keeps (tell refuses c)
    tell-Keeps c = accept-Keeps c (refuses c)

    handle_counter-Keeps : (c : Option CounterConfig) → Keeps (handle_counter refuses c)
    handle_counter-Keeps none = λ s. refl
    handle_counter-Keeps (some c) = with_metric-Keeps c.increment _ (λ m p. tell-Keeps _)

    handle_gauge-Keeps : (c : Option GaugeConfig) → Keeps (handle_gauge refuses c)
    handle_gauge-Keeps none = λ s. refl
    handle_gauge-Keeps (some c) = sequence-Keeps (gauge_steps refuses c) (
      with_metric-Keeps c.increment _ (λ m p. tell-Keeps _),
      (with_metric-Keeps c.decrement _ (λ m p. tell-Keeps _), tt),
    )

    observe-Keeps :
        (kind : Timed) (m : String) (p : Option Params) → Keeps (observe refuses kind m p)
    observe-Keeps kind m none = λ s. refl
    observe-Keeps kind m (some p) = tell-Keeps _

    end_timer-Keeps :
        (kind : Timed) (e : Option (Option Labels)) (n : Option ℕ)
        → Keeps (end_timer refuses kind e n)
    end_timer-Keeps kind none n = λ s. refl
    end_timer-Keeps kind (some l) none = λ s. refl
    end_timer-Keeps kind (some l) (some n) = tell-Keeps _

    pub handle_timed-Keeps :
        (kind : Timed) (c : Option TimedConfig)
        → ((m : String) (p : Option Params)
            → is_started c ≡ true
            → Keeps (start refuses t kind m p))
        → Keeps (handle_timed refuses kind c t)
    handle_timed-Keeps kind none h = λ s. refl
    handle_timed-Keeps kind (some c) h = sequence-Keeps (timed_steps refuses kind c t) (
      start_step c.start_timer h,
      (
        with_metric-Keeps c.observe _ (observe-Keeps kind),
        (λ s. end_timer-Keeps kind c.end (timer_of kind (find t s.callbacks)) s, tt),
      ),
    )
      where
        start_step :
            (setting : Setting)
            → ((m : String) (p : Option Params)
                → is_started (some (record c { start_timer = setting })) ≡ true
                → Keeps (start refuses t kind m p))
            → Keeps (with_metric setting (start refuses t kind))
        start_step off g = λ s. refl
        start_step on g = λ s. refl
        start_step (given p) g =
            with_metric-Keeps (given p) (start refuses t kind) (λ m q. g m q refl)

    pub handle_event-Keeps :
        (c : EventConfig) (clear : Bool)
        → Keeps (handle_histogram refuses c.histogram t)
        → Keeps (handle_summary refuses c.summary t)
        → Keeps (handle_clear t clear)
        → Keeps (handle_event refuses c t clear)
    handle_event-Keeps c clear hh hs hc = sequence-Keeps (event_steps refuses c t clear) (
      handle_counter-Keeps c.counter,
      (handle_gauge-Keeps c.gauge, (hh, (hs, (handle_custom-Keeps c.custom, (hc, tt))))),
    )

    module _
        (view-set : (b : Option (List Event)) (e : EndCallback) (cs : List (ℕ × EndCallback))
          → view b (set t e cs) ≡ view b cs)
        (view-delete : (b : Option (List Event)) (cs : List (ℕ × EndCallback))
          → view b (delete t cs) ≡ view b cs) where
      start-Keeps :
          (kind : Timed) (m : String) (p : Option Params) → Keeps (start refuses t kind m p)
      start-Keeps kind m p s =
          unless_thrown-look _
            (λ r. (none, add_end_callback t kind s.timers (record r { timers = suc r.timers })))
            (λ r. view-set r.buffer (with_timer kind s.timers (find t r.callbacks)) r.callbacks)
          ∙ tell-Keeps _ s

      handle_clear-Keeps : (b : Bool) → Keeps (handle_clear t b)
      handle_clear-Keeps false s = refl
      handle_clear-Keeps true s = view-delete s.buffer s.callbacks

      pub handle_event-Keeps_all :
          (c : EventConfig) (clear : Bool) → Keeps (handle_event refuses c t clear)
      handle_event-Keeps_all c clear =
          handle_event-Keeps c clear
            (handle_timed-Keeps histogram c.histogram (λ m p h. start-Keeps histogram m p))
            (handle_timed-Keeps summary c.summary (λ m p h. start-Keeps summary m p))
            (handle_clear-Keeps clear)
