-- ===== src/Prometheus/Config/Build.antt =====
-- `PrometheusHistogramConfigDecoratorHelper`, `PrometheusSummaryConfigDecoratorHelper`, which differ in the
-- word of their messages only, and `PrometheusEventConfigDecoratorHelper`.
use Prim.Native.String.{◌++◌ as concat}
use demo_hybrid_microservice.Common.{
  String, Bool, true, false, ◌||◌, Option, none, some, if◌then◌else◌, Result, ok, error,
}
use demo_hybrid_microservice.Prometheus.Config.{
  Labels, Setting, off, CounterConfig, GaugeConfig, TimedConfig, EventConfig, MetricConfig,
  DefaultParams, build_timed_setting, build_counter, build_gauge,
}

-- `defaultParams?.end`
abbrev pub ends : Option DefaultParams → Bool
ends none = false
ends (some d) = d.end

abbrev pub end_of : Bool → Option Labels → Option (Option Labels)
end_of true labels = some labels
end_of false labels = none

abbrev pub timed_config : Setting → Setting → Option (Option Labels) → Option TimedConfig
timed_config off off none = none
timed_config o s e = some (record { observe = o; start_timer = s; end = e })

abbrev pub all_settings :
    Result Setting → Result Setting → Option (Option Labels) → Result (Option TimedConfig)
all_settings (error e) s end = error e
all_settings (ok o) (error e) end = error e
all_settings (ok o) (ok s) end = ok (timed_config o s end)

abbrev pub observe_of : Option TimedConfig → Setting
observe_of none = off
observe_of (some c) = c.observe

abbrev pub start_timer_of : Option TimedConfig → Setting
start_timer_of none = off
start_timer_of (some c) = c.start_timer

abbrev pub build_timed :
    String
    → Option TimedConfig
    → Option String
    → Option Labels
    → Option DefaultParams
    → Result (Option TimedConfig)
build_timed name config metric labels defaults =
    all_settings
      (build_timed_setting (observe_of config) metric labels defaults
        (concat name ".observe.metricConfig") (some (concat name ".observe.params.value")))
      (build_timed_setting (start_timer_of config) metric labels none
        (concat name ".startTimer.metricConfig") none)
      (end_of (ends defaults) labels)

abbrev pub build_histogram :
    Option TimedConfig
    → Option String
    → Option Labels
    → Option DefaultParams
    → Result (Option TimedConfig)
build_histogram config metric labels defaults =
    build_timed "histogram" config metric labels defaults

abbrev pub build_summary :
    Option TimedConfig
    → Option String
    → Option Labels
    → Option DefaultParams
    → Result (Option TimedConfig)
build_summary config metric labels defaults = build_timed "summary" config metric labels defaults

abbrev pub no_config : EventConfig
no_config = record { counter = none; gauge = none; histogram = none; summary = none; custom = none }

abbrev pub event_config :
    Result (Option CounterConfig)
    → Result (Option GaugeConfig)
    → Result (Option TimedConfig)
    → Result (Option TimedConfig)
    → Option (Option String)
    → Result EventConfig
event_config (error e) g h s custom = error e
event_config (ok c) (error e) h s custom = error e
event_config (ok c) (ok g) (error e) s custom = error e
event_config (ok c) (ok g) (ok h) (error e) custom = error e
event_config (ok c) (ok g) (ok h) (ok s) custom =
    ok (record { counter = c; gauge = g; histogram = h; summary = s; custom = custom })

-- `PrometheusEventConfigDecoratorHelper.build`: without a configuration only timers are ended.
abbrev pub build :
    Option EventConfig
    → MetricConfig
    → Option Labels
    → Option DefaultParams
    → Option DefaultParams
    → Result EventConfig
build none metrics labels histogram summary =
    if ends histogram || ends summary
    then event_config (ok none) (ok none)
        (if ends histogram
          then build_histogram none metrics.histogram labels histogram
          else ok none)
        (if ends summary then build_summary none metrics.summary labels summary else ok none) none
    else ok no_config
build (some c) metrics labels histogram summary =
    event_config (build_counter c.counter metrics.counter labels)
      (build_gauge c.gauge metrics.gauge labels)
      (build_histogram c.histogram metrics.histogram labels histogram)
      (build_summary c.summary metrics.summary labels summary) c.custom
