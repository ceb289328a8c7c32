-- ===== src/Prometheus/Events.antt =====
-- `PrometheusEventService`: `src/modules/prometheus/services/prometheus.event-service.ts`. A ticket is a
-- number in place of a UUID, and a timer the number of `startTimer` calls before it. What a call of the
-- metrics' manager throws is a parameter; the names of the service and the method, the context an event
-- is handled in and the manager's calls of a custom handler are left out. An error of the subscriber
-- does not reach the emitter: RxJS 7 reports it in a task of its own.
pub mod Keeps
pub mod Tickets
pub mod Passes
use demo_hybrid_microservice.Common.{
  ℕ, suc, String, Bool, true, false, List, [], ◌∷◌, ◌++◌, Option, none, some, if◌then◌else◌, ◌==◌,
}
use demo_hybrid_microservice.Prometheus.Config.{
  Labels, Params, Setting, off, on, given, CounterConfig, GaugeConfig, TimedConfig, EventConfig,
}

-- `PrometheusEventArgs`, less the method's arguments.
pub record EventArgs : Type 0 where
  pub error : Option String
  pub result : Option String
  pub duration : Option ℕ
  pub labels : Option Labels

-- What is emitted; no configuration stands for `false`.
pub record Event : Type 0 where
  pub ticket : ℕ
  pub args : EventArgs
  pub clear : Bool
  pub config : Option EventConfig

pub data Timed : Type 0 where
  histogram summary : Timed

-- `IPrometheusEndCallback`: the timers to end.
pub record EndCallback : Type 0 where
  pub histogram : Option ℕ
  pub summary : Option ℕ

pub data ManagerCall : Type 0 where
  counter_increment gauge_increment gauge_decrement : String → Option Params → ManagerCall
  timer_start : Timed → String → Option Params → (timer : ℕ) → ManagerCall
  timed_observe : Timed → String → Params → ManagerCall
  timer_end : Timed → (timer : ℕ) → Option Labels → ManagerCall

-- The static fields, and the manager's calls so far. The buffer is the one of `onMethods`, a `ReplaySubject`
-- without a bound, while there is one.
pub record Service : Type 0 where
  pub buffer : Option (List Event)
  pub callbacks : List (ℕ × EndCallback)
  pub timers : ℕ
  pub calls : List ManagerCall

-- `Map`
abbrev pub find : ℕ → List (ℕ × EndCallback) → Option EndCallback
find t [] = none
find t (c ∷ cs) = if c.0 == t then some c.1 else find t cs

abbrev pub set : ℕ → EndCallback → List (ℕ × EndCallback) → List (ℕ × EndCallback)
set t e [] = (t, e) ∷ []
set t e (c ∷ cs) = if c.0 == t then (t, e) ∷ cs else c ∷ set t e cs

abbrev pub delete : ℕ → List (ℕ × EndCallback) → List (ℕ × EndCallback)
delete t [] = []
delete t (c ∷ cs) = let rest = delete t cs in if c.0 == t then rest else c ∷ rest

abbrev pub timer_of : Timed → Option EndCallback → Option ℕ
timer_of kind none = none
timer_of histogram (some e) = e.histogram
timer_of summary (some e) = e.summary

abbrev pub with_timer : Timed → ℕ → Option EndCallback → EndCallback
with_timer histogram n none = record { histogram = some n; summary = none }
with_timer summary n none = record { histogram = none; summary = some n }
with_timer histogram n (some e) = record { histogram = some n; summary = e.summary }
with_timer summary n (some e) = record { histogram = e.histogram; summary = some n }

-- Code that may throw; the state comes back then too.
abbrev pub Handler : Type 0
Handler = Service → Option String × Service

abbrev pub pass : Handler
pass s = (none, s)

abbrev pub raise : String → Handler
raise e s = (some e, s)

abbrev pub unless_thrown : Handler → Option String × Service → Option String × Service
unless_thrown k (none, s) = k s
unless_thrown k (some e, s) = (some e, s)

-- One after the other, until one throws.
abbrev pub sequence : List Handler → Handler
sequence [] s = (none, s)
sequence (m ∷ ms) s = unless_thrown (sequence ms) (m s)

abbrev pub add_end_callback : ℕ → Timed → ℕ → Service → Service
add_end_callback ticket kind timer s = record s {
  callbacks = set ticket (with_timer kind timer (find ticket s.callbacks)) s.callbacks;
}

-- An option that is set needs a metric.
abbrev pub with_metric : Setting → (String → Option Params → Handler) → Handler
with_metric off k = pass
with_metric on k = raise "Invalid configuration"
with_metric (given p) k = elim p.metric_config [
  | none ↦ raise "metricConfig is required"
  | some c ↦ k c p.params
]

-- Whether a configuration starts a timer.
abbrev pub is_started : Option TimedConfig → Bool
is_started none = false
is_started (some c) = elim c.start_timer [ off ↦ false | _ ↦ true ]

abbrev pub handle_clear : ℕ → Bool → Handler
handle_clear ticket clear s =
    (none, if clear then record s { callbacks = delete ticket s.callbacks } else s)

abbrev pub handle_custom : Option (Option String) → Handler
handle_custom (some (some e)) = raise e
handle_custom _ = pass

module _ (refuses : ManagerCall → Option String) where
  abbrev pub accept : ManagerCall → Option String → Handler
  accept c none s = (none, record s { calls = s.calls ++ c ∷ [] })
  accept c (some e) s = (some e, s)

  abbrev pub tell : ManagerCall → Handler
  tell c = accept c (refuses c)

  abbrev pub handle_counter : Option CounterConfig → Handler
  handle_counter none = pass
  handle_counter (some c) = with_metric c.increment (λ m p. tell (counter_increment m p))

  abbrev pub gauge_steps : GaugeConfig → List Handler
  gauge_steps c =
      with_metric c.increment (λ m p. tell (gauge_increment m p))
      ∷ with_metric c.decrement (λ m p. tell (gauge_decrement m p))
      ∷ []

  abbrev pub handle_gauge : Option GaugeConfig → Handler
  handle_gauge none = pass
  handle_gauge (some c) = sequence (gauge_steps c)

  abbrev pub start : ℕ → Timed → String → Option Params → Handler
  start ticket kind m p s =
      unless_thrown
        (λ r. (none, add_end_callback ticket kind s.timers (record r { timers = suc r.timers })))
        (tell (timer_start kind m p s.timers) s)

  abbrev pub observe : Timed → String → Option Params → Handler
  observe kind m none = raise "metricConfig/params are required"
  observe kind m (some p) = tell (timed_observe kind m p)

  abbrev pub end_timer : Timed → Option (Option Labels) → Option ℕ → Handler
  end_timer kind (some labels) (some timer) = tell (timer_end kind timer labels)
  end_timer kind _ _ = pass

  abbrev pub timed_steps : Timed → TimedConfig → ℕ → List Handler
  timed_steps kind c ticket =
      with_metric c.start_timer (start ticket kind)
      ∷ with_metric c.observe (observe kind)
      ∷ (λ s. end_timer kind c.end (timer_of kind (find ticket s.callbacks)) s)
      ∷ []

  abbrev pub handle_timed : Timed → Option TimedConfig → ℕ → Handler
  handle_timed kind none ticket = pass
  handle_timed kind (some c) ticket = sequence (timed_steps kind c ticket)

  abbrev pub handle_histogram : Option TimedConfig → ℕ → Handler
  handle_histogram = handle_timed histogram

  abbrev pub handle_summary : Option TimedConfig → ℕ → Handler
  handle_summary = handle_timed summary

  abbrev pub event_steps : EventConfig → ℕ → Bool → List Handler
  event_steps c ticket clear =
      handle_counter c.counter
      ∷ handle_gauge c.gauge
      ∷ handle_histogram c.histogram ticket
      ∷ handle_summary c.summary ticket
      ∷ handle_custom c.custom
      ∷ handle_clear ticket clear
      ∷ []

  abbrev pub handle_event : EventConfig → ℕ → Bool → Handler
  handle_event c ticket clear = sequence (event_steps c ticket clear)

  pub handle_on_method : Event → Handler
  handle_on_method e = elim e.config [
    | none ↦ handle_clear e.ticket e.clear
    | some c ↦ handle_event c e.ticket e.clear
  ]

  -- `onMethods?.next`
  pub emit : Event → Service → Service
  unfolding handle_on_method
  emit e s = elim s.buffer [
    | none ↦ s
    | some es ↦ (handle_on_method e (record s { buffer = some (es ++ e ∷ []) })).1
  ]

-- The constructor, and `onApplicationShutdown`.
abbrev pub construct : Service → Service
construct s = elim s.buffer [ none ↦ record s { buffer = some [] } | some es ↦ s ]

abbrev pub on_application_shutdown : Service → Service
on_application_shutdown s = record s { buffer = none }
