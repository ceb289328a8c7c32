-- ===== src/Prometheus/Config.antt =====
-- The configuration of an event: `types/decorators.type.ts`, `types/types.ts` and `helpers` of
-- `src/modules/prometheus`. A metric's configuration is the name it is registered under, a number is a
-- natural number (a duration is in milliseconds), and labels are the pairs of an object in order.
-- The messages of errors are shortened to the option they are about.
pub mod Build
pub mod Complete
use demo_hybrid_microservice.Common.{
  ℕ, String, Bool, true, false, ◌||◌, ◌&&◌, not, List, [], ◌∷◌, Option, none, some, if◌then◌else◌,
  str_eq, Result, ok, error,
}

abbrev pub Labels : Type 0
Labels = List (String × String)

pub record Params : Type 0 where
  pub value : Option ℕ
  pub labels : Option Labels

-- `Partial<IPrometheusParams>`
pub record MetricParams : Type 0 where
  pub metric_config : Option String
  pub params : Option Params

-- `Partial<IPrometheusParams> | boolean`: `off` is also `undefined`.
pub data Setting : Type 0 where
  off on : Setting
  given : MetricParams → Setting

-- `ICounterConfig` and `IGaugeConfig`
pub record CounterConfig : Type 0 where
  pub increment : Setting

pub record GaugeConfig : Type 0 where
  pub increment : Setting
  pub decrement : Setting

-- `IHistogramConfig` and `ISummaryConfig`. `end` holds the labels to end with, if there are any.
pub record TimedConfig : Type 0 where
  pub observe : Setting
  pub start_timer : Setting
  pub end : Option (Option Labels)

-- `IPrometheusEventConfig`. A custom handler is a function that returns, or one that throws the string.
pub record EventConfig : Type 0 where
  pub counter : Option CounterConfig
  pub gauge : Option GaugeConfig
  pub histogram : Option TimedConfig
  pub summary : Option TimedConfig
  pub custom : Option (Option String)

-- `PrometheusMetricConfig`: what the class of the method gives for all its methods.
pub record MetricConfig : Type 0 where
  pub labels : Option Labels
  pub counter : Option String
  pub gauge : Option String
  pub histogram : Option String
  pub summary : Option String

-- `IParamsPrometheusValue & { end?: boolean }`
pub record DefaultParams : Type 0 where
  pub value : ℕ
  pub end : Bool

abbrev pub set_label : String × String → Labels → Labels
set_label p [] = p ∷ []
set_label p (q ∷ qs) = if str_eq p.0 q.0 then p ∷ qs else q ∷ set_label p qs

abbrev pub spread_labels : Labels → Labels → Labels
spread_labels base [] = base
spread_labels base (p ∷ ps) = spread_labels (set_label p base) ps

abbrev labels_or_empty : Option Labels → Labels
labels_or_empty none = []
labels_or_empty (some ls) = ls

-- `PrometheusDecoratorHelper`
abbrev pub build_labels : Option Labels → Option Labels → Option Labels
build_labels none none = none
build_labels none (some ds) = some ds
build_labels (some ls) ds = some (spread_labels (labels_or_empty ds) ls)

abbrev pub build_metric_config : Option String → Option String → String → Result String
build_metric_config (some c) d message = ok c
build_metric_config none (some d) message = ok d
build_metric_config none none message = error message

-- A Boolean option stands for one without parameters.
abbrev pub requested : Setting → Option MetricParams
requested off = none
requested on = some (record { metric_config = none; params = none })
requested (given p) = some p

abbrev pub value_of : Option Params → Option ℕ
value_of none = none
value_of (some p) = p.value

abbrev pub labels_of : Option Params → Option Labels
labels_of none = none
labels_of (some p) = p.labels

-- `buildParams` of counters and gauges: nothing without a value and labels.
abbrev pub plain_params : Option ℕ → Option Labels → Option Params
plain_params none none = none
plain_params value labels = some (record { value = value; labels = labels })

abbrev pub build_params : Option Params → Option Labels → Option Params
build_params params defaults =
    plain_params (value_of params) (build_labels (labels_of params) defaults)

-- `buildParams` of histograms and summaries: the value is the option's own, or else the default.
abbrev pub timed_value : Option Params → Option DefaultParams → Option ℕ
timed_value params defaults = elim (value_of params) [
  | some v ↦ some v
  | none ↦ elim defaults [ none ↦ none | some d ↦ some d.value ]
]

abbrev pub require_value : Option ℕ → Option String → Option Params → Result (Option Params)
require_value none (some message) params = error message
require_value _ _ params = ok params

abbrev pub build_timed_params :
    Option Params → Option Labels → Option DefaultParams → Option String → Result (Option Params)
build_timed_params params default_labels defaults required =
    let value = timed_value params defaults in
    require_value value required
      (plain_params value (build_labels (labels_of params) default_labels))

-- The option with its metric and parameters filled in; what is missing throws.
abbrev pub with_params : String → Result (Option Params) → Result Setting
with_params c (error e) = error e
with_params c (ok p) = ok (given (record { metric_config = some c; params = p }))

abbrev pub with_metric : Result String → Result (Option Params) → Result Setting
with_metric (error e) params = error e
with_metric (ok c) params = with_params c params

abbrev pub build_plain : Setting → Option String → Option Labels → String → Result Setting
build_plain setting metric labels message = elim (requested setting) [
  | none ↦ ok off
  | some p ↦
      with_metric (build_metric_config p.metric_config metric message)
        (ok (build_params p.params labels))
]

abbrev pub build_timed_setting :
    Setting
    → Option String
    → Option Labels
    → Option DefaultParams
    → String
    → Option String
    → Result Setting
build_timed_setting setting metric labels defaults message required = elim (requested setting) [
  | none ↦ ok off
  | some p ↦
      with_metric (build_metric_config p.metric_config metric message)
        (build_timed_params p.params labels defaults required)
]

-- `PrometheusCounterConfigDecoratorHelper.build`
abbrev pub unless_off : Result Setting → Result (Option CounterConfig)
unless_off (error e) = error e
unless_off (ok off) = ok none
unless_off (ok s) = ok (some (record { increment = s }))

abbrev pub build_counter :
    Option CounterConfig → Option String → Option Labels → Result (Option CounterConfig)
build_counter none metric labels = ok none
build_counter (some c) metric labels =
    unless_off (build_plain c.increment metric labels "counter.increment.metricConfig")

-- `PrometheusGaugeConfigDecoratorHelper.build`
abbrev pub gauge_config : Setting → Setting → Option GaugeConfig
gauge_config off off = none
gauge_config i d = some (record { increment = i; decrement = d })

abbrev pub both : Result Setting → Result Setting → Result (Option GaugeConfig)
both (error e) d = error e
both (ok i) (error e) = error e
both (ok i) (ok d) = ok (gauge_config i d)

abbrev pub build_gauge :
    Option GaugeConfig → Option String → Option Labels → Result (Option GaugeConfig)
build_gauge none metric labels = ok none
build_gauge (some c) metric labels =
    both (build_plain c.increment metric labels "gauge.increment.metricConfig")
      (build_plain c.decrement metric labels "gauge.decrement.metricConfig")
