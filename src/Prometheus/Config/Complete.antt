-- ===== src/Prometheus/Config/Complete.antt =====
-- Which configurations are complete, and the ones that the helpers build.
use demo_hybrid_microservice.Common.{
  ℕ, ◌≡◌, refl, subst, String, Bool, true, false, ◌&&◌, ◌||◌, Option, none, some, arith, Result, ok,
  error, if◌then◌else◌, Bool-cases, inl, inr,
}
use demo_hybrid_microservice.Prometheus.Config.{
  Labels, Params, Setting, off, on, given, CounterConfig, GaugeConfig, TimedConfig, EventConfig,
  MetricConfig, DefaultParams, build_plain, build_timed_setting, build_counter, build_gauge,
  build_metric_config, require_value, plain_params, with_metric, unless_off, both, build_labels,
  labels_of, timed_value,
}
use demo_hybrid_microservice.Prometheus.Config.Build.{
  build, build_timed, event_config, all_settings, timed_config, end_of, ends, observe_of,
  start_timer_of,
}

abbrev pub has : {A : Type 0} → Option A → Bool
has none = false
has (some a) = true

abbrev pub is_ready : Setting → Bool
is_ready off = true
is_ready on = false
is_ready (given p) = has p.metric_config

abbrev pub is_observable : Setting → Bool
is_observable off = true
is_observable on = false
is_observable (given p) = has p.metric_config && has p.params

abbrev pub is_ready_timed : Option TimedConfig → Bool
is_ready_timed none = true
is_ready_timed (some c) = is_ready c.start_timer && is_observable c.observe

abbrev pub is_ready_counter : Option CounterConfig → Bool
is_ready_counter none = true
is_ready_counter (some c) = is_ready c.increment

abbrev pub is_ready_gauge : Option GaugeConfig → Bool
is_ready_gauge none = true
is_ready_gauge (some c) = is_ready c.increment && is_ready c.decrement

-- Each option that is set has its metric, and what observes has a value.
abbrev pub is_complete : EventConfig → Bool
is_complete c =
    is_ready_counter c.counter
    && is_ready_gauge c.gauge
    && is_ready_timed c.histogram
    && is_ready_timed c.summary

abbrev holds : {A : Type 0} → (A → Bool) → Result A → Bool
holds p (ok a) = p a
holds p (error e) = true

with_metric-ready :
    (c : Result String) (p : Result (Option Params)) → holds is_ready (with_metric c p) ≡ true
with_metric-ready (error e) p = refl
with_metric-ready (ok c) (error e) = refl
with_metric-ready (ok c) (ok p) = refl

build_plain-ready :
    (setting : Setting) (metric : Option String) (labels : Option Labels) (message : String)
    → holds is_ready (build_plain setting metric labels message) ≡ true
build_plain-ready off metric labels message = refl
build_plain-ready on metric labels message = with_metric-ready _ _
build_plain-ready (given p) metric labels message = with_metric-ready _ _

build_timed_setting-ready :
    (setting : Setting) (metric : Option String) (labels : Option Labels)
    (defaults : Option DefaultParams) (message : String) (required : Option String)
    → holds is_ready (build_timed_setting setting metric labels defaults message required) ≡ true
build_timed_setting-ready off metric labels defaults message required = refl
build_timed_setting-ready on metric labels defaults message required = with_metric-ready _ _
build_timed_setting-ready (given p) metric labels defaults message required = with_metric-ready _ _

-- A required value makes parameters.
with_required :
    (c : Result String) (value : Option ℕ) (labels : Option Labels) (message : String)
    → holds is_observable
        (with_metric c (require_value value (some message) (plain_params value labels)))
      ≡ true
with_required (error e) value labels message = refl
with_required (ok c) none labels message = refl
with_required (ok c) (some v) none message = refl
with_required (ok c) (some v) (some l) message = refl

build_timed_setting-observable :
    (setting : Setting) (metric : Option String) (labels : Option Labels)
    (defaults : Option DefaultParams) (message required : String)
    → holds is_observable
        (build_timed_setting setting metric labels defaults message (some required))
      ≡ true
build_timed_setting-observable off metric labels defaults message required = refl
build_timed_setting-observable on metric labels defaults message required =
    with_required (build_metric_config none metric message) (timed_value none defaults)
      (build_labels none labels) required
build_timed_setting-observable (given p) metric labels defaults message required =
    with_required (build_metric_config p.metric_config metric message)
      (timed_value p.params defaults) (build_labels (labels_of p.params) labels) required

all_settings-ready :
    (o s : Result Setting) (end : Option (Option Labels))
    → holds is_observable o ≡ true
    → holds is_ready s ≡ true
    → holds is_ready_timed (all_settings o s end) ≡ true
all_settings-ready (error e) s end ho hs = refl
all_settings-ready (ok o) (error e) end ho hs = refl
all_settings-ready (ok o) (ok s) end ho hs = timed_config-ready o s end ho hs
  where
    timed_config-ready :
        (o s : Setting) (end : Option (Option Labels))
        → is_observable o ≡ true
        → is_ready s ≡ true
        → is_ready_timed (timed_config o s end) ≡ true
    timed_config-ready off off none ho hs = refl
    timed_config-ready off off (some l) ho hs = refl
    timed_config-ready off on end ho hs = hs
    timed_config-ready off (given p) end ho hs = ground (arith, hs)
    timed_config-ready on s end ho hs = ground (arith, ho)
    timed_config-ready (given p) s end ho hs = ground (arith, ho, hs)

build_timed-ready :
    (name : String) (config : Option TimedConfig) (metric : Option String) (labels : Option Labels)
    (defaults : Option DefaultParams)
    → holds is_ready_timed (build_timed name config metric labels defaults) ≡ true
build_timed-ready name config metric labels defaults =
    all_settings-ready _ _ (end_of (ends defaults) labels)
      (build_timed_setting-observable (observe_of config) metric labels defaults _ _)
      (build_timed_setting-ready (start_timer_of config) metric labels none _ none)

build_counter-ready :
    (c : Option CounterConfig) (metric : Option String) (labels : Option Labels)
    → holds is_ready_counter (build_counter c metric labels) ≡ true
build_counter-ready none metric labels = refl
build_counter-ready (some c) metric labels =
    unless_off-ready _
      (build_plain-ready c.increment metric labels "counter.increment.metricConfig")
  where
    unless_off-ready :
        (s : Result Setting)
        → holds is_ready s ≡ true
        → holds is_ready_counter (unless_off s) ≡ true
    unless_off-ready (error e) h = refl
    unless_off-ready (ok off) h = refl
    unless_off-ready (ok on) h = h
    unless_off-ready (ok (given p)) h = h

build_gauge-ready :
    (c : Option GaugeConfig) (metric : Option String) (labels : Option Labels)
    → holds is_ready_gauge (build_gauge c metric labels) ≡ true
build_gauge-ready none metric labels = refl
build_gauge-ready (some c) metric labels =
    both-ready _ _ (build_plain-ready c.increment metric labels "gauge.increment.metricConfig")
      (build_plain-ready c.decrement metric labels "gauge.decrement.metricConfig")
  where
    both-ready :
        (i d : Result Setting)
        → holds is_ready i ≡ true
        → holds is_ready d ≡ true
        → holds is_ready_gauge (both i d) ≡ true
    both-ready (error e) d hi hd = refl
    both-ready (ok i) (error e) hi hd = refl
    both-ready (ok off) (ok off) hi hd = refl
    both-ready (ok off) (ok on) hi hd = hd
    both-ready (ok off) (ok (given p)) hi hd = ground (arith, hd)
    both-ready (ok on) (ok d) hi hd = ground (arith, hi)
    both-ready (ok (given p)) (ok d) hi hd = ground (arith, hi, hd)

event_config_complete :
    (c : Result (Option CounterConfig)) (g : Result (Option GaugeConfig))
    (h s : Result (Option TimedConfig)) (custom : Option (Option String))
    → holds is_ready_counter c ≡ true
    → holds is_ready_gauge g ≡ true
    → holds is_ready_timed h ≡ true
    → holds is_ready_timed s ≡ true
    → holds is_complete (event_config c g h s custom) ≡ true
event_config_complete (error e) g h s custom hc hg hh hs = refl
event_config_complete (ok c) (error e) h s custom hc hg hh hs = refl
event_config_complete (ok c) (ok g) (error e) s custom hc hg hh hs = refl
event_config_complete (ok c) (ok g) (ok h) (error e) custom hc hg hh hs = refl
event_config_complete (ok c) (ok g) (ok h) (ok s) custom hc hg hh hs =
    ground (arith, hc, hg, hh, hs)

ended-ready :
    (b : Bool) (r : Result (Option TimedConfig))
    → holds is_ready_timed r ≡ true
    → holds is_ready_timed (if b then r else ok none) ≡ true
ended-ready true r h = h
ended-ready false r h = refl

build_complete :
    (config : Option EventConfig) (metrics : MetricConfig) (labels : Option Labels)
    (h s : Option DefaultParams)
    → holds is_complete (build config metrics labels h s) ≡ true
build_complete none metrics labels h s = elim (Bool-cases (ends h || ends s)) [
  | inl some_end ↦ rw some_end (
      event_config_complete (ok none) (ok none) _ _ none refl refl
        (ended-ready (ends h) _ (build_timed-ready "histogram" none metrics.histogram labels h))
        (ended-ready (ends s) _ (build_timed-ready "summary" none metrics.summary labels s)))
  | inr no_end ↦ rw no_end refl
]
build_complete (some c) metrics labels h s =
    event_config_complete _ _ _ _ c.custom (build_counter-ready c.counter metrics.counter labels)
      (build_gauge-ready c.gauge metrics.gauge labels)
      (build_timed-ready "histogram" c.histogram metrics.histogram labels h)
      (build_timed-ready "summary" c.summary metrics.summary labels s)

pub build-is_complete :
    (config : Option EventConfig) (metrics : MetricConfig) (labels : Option Labels)
    (h s : Option DefaultParams) (c : EventConfig)
    → build config metrics labels h s ≡ ok c
    → is_complete c ≡ true
build-is_complete config metrics labels h s c e =
    subst (λ r. holds is_complete r ≡ true) e (build_complete config metrics labels h s)
