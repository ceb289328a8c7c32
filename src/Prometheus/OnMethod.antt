-- ===== src/Prometheus/OnMethod.antt =====
-- `PrometheusOnMethod`: `src/modules/prometheus/decorators/prometheus.on-method.ts`. A call of a wrapped
-- method has two parts: what happens until the method has returned, and, if it has returned a promise,
-- what happens when that settles. Results and errors are strings; the method's arguments, on which what
-- the options give may depend, are those of the call at hand. A duration is what the clock then gives.
pub mod Transparent
pub mod Settles
pub mod Callbacks
use demo_hybrid_microservice.Common.{
  ℕ, String, Bool, true, false, Option, none, some, Result, ok, error,
}
use demo_hybrid_microservice.Common.Methods.{
  Response, returns, throws, promises, Outcome, resolves, rejects, Answer, returned, threw, pending,
  Settlement, resolved, rejected, never, or_else, seen, settlement_of,
}
use demo_hybrid_microservice.Prometheus.Config.{
  Labels, Setting, off, TimedConfig, EventConfig, MetricConfig, build_labels,
}
use demo_hybrid_microservice.Prometheus.Config.Build.{build}
use demo_hybrid_microservice.Prometheus.Events.{EventArgs, ManagerCall, Service, emit, is_started}

-- `IPrometheusOnMethod`: what an option gives for a call, or what it throws if it is a function.
pub record OnMethod : Type 0 where
  pub labels : Option Labels → Result (Option Labels)
  pub before : Option Labels → Result (Option EventConfig)
  pub after : String → ℕ → Option Labels → Result (Option EventConfig)
  pub throw : String → ℕ → Option Labels → Result (Option EventConfig)
  pub finally : ℕ → Option Labels → Result (Option EventConfig)

-- `endConfig`
pub record EndConfig : Type 0 where
  pub histogram : Bool
  pub summary : Bool

-- What the parts of a call share.
pub record Call : Type 0 where
  pub ticket : ℕ
  pub labels : Option Labels
  pub ends : EndConfig

abbrev pub ends_of : EventConfig → EndConfig
ends_of c = record { histogram = is_started c.histogram; summary = is_started c.summary }

abbrev pub no_ends : EndConfig
no_ends = record { histogram = false; summary = false }

abbrev pub use_labels : Result (Option Labels) → Option Labels → Result (Option Labels)
use_labels (error e) defaults = error e
use_labels (ok base) defaults = ok (build_labels base defaults)

module _ (refuses : ManagerCall → Option String) (metrics : MetricConfig) (m : OnMethod) where
  abbrev pub built :
      Result (Option EventConfig) → Option Labels → Option ℕ → EndConfig → Result EventConfig
  built (error e) labels value ends = error e
  built (ok c) labels none ends = build c metrics labels none none
  built (ok c) labels (some v) ends =
      build c metrics labels (some (record { value = v; end = ends.histogram }))
        (some (record { value = v; end = ends.summary }))

  abbrev pub before_config : Option Labels → Result EventConfig
  before_config labels = built (m.before labels) labels none no_ends

  abbrev pub after_config : String → ℕ → Option Labels → Result EventConfig
  after_config v took labels = built (m.after v took labels) labels none no_ends

  abbrev pub throw_config : String → ℕ → Option Labels → Result EventConfig
  throw_config e took labels = built (m.throw e took labels) labels none no_ends

  abbrev pub finally_config : ℕ → Call → Result EventConfig
  finally_config took c = built (m.finally took c.labels) c.labels (some took) c.ends

  -- An event is emitted, unless making its configuration throws.
  abbrev pub emit_built :
      ℕ → EventArgs → Bool → Result EventConfig → Service → Option String × Service
  emit_built ticket args clear (error e) s = (some e, s)
  emit_built ticket args clear (ok c) s = (
    none,
    emit refuses (record { ticket = ticket; args = args; clear = clear; config = some c }) s,
  )

  abbrev pub after_call : String → ℕ → Call → Service → Option String × Service
  after_call v took c s =
      emit_built c.ticket
        (record { error = none; result = some v; duration = some took; labels = c.labels }) false
        (after_config v took c.labels) s

  abbrev pub throw_call : String → ℕ → Call → Service → Option String × Service
  throw_call e took c s =
      emit_built c.ticket
        (record { error = some e; result = none; duration = some took; labels = c.labels }) false
        (throw_config e took c.labels) s

  abbrev pub finally_call : ℕ → Call → Service → Option String × Service
  finally_call took c s =
      emit_built c.ticket
        (record { error = none; result = none; duration = some took; labels = c.labels }) true
        (finally_config took c) s

  -- The `catch` and the `finally` of the method's own call.
  pub failed : String → ℕ → Call → Service → Answer Call × Service
  failed e took c s =
      let (thrown, s1) = throw_call e took c s in
      let (finally_thrown, s2) = finally_call took c s1 in
      (threw (or_else finally_thrown (or_else thrown e)), s2)

  abbrev pub answer_of : String → Option String → Answer Call
  answer_of v none = returned v
  answer_of v (some e) = threw e

  abbrev pub returned_after : String → ℕ → Call → Option String × Service → Answer Call × Service
  returned_after v took c (some e, s) = (threw e, s)
  returned_after v took c (none, s) =
      let (thrown, s1) = after_call v took c s in (answer_of v thrown, s1)

  abbrev pub respond : Response → ℕ → Call → Service → Answer Call × Service
  respond (returns v) took c s = returned_after v took c (finally_call took c s)
  respond (throws e) took c s = failed e took c s
  respond promises took c s = (pending c, s)

  -- The `before` event and the call; if the configuration throws, the method is not called.
  abbrev pub try_call :
      Response → ℕ → ℕ → Option Labels → Result EventConfig → Service → Answer Call × Service
  try_call response took ticket labels (error e) s =
      failed e took (record { ticket = ticket; labels = labels; ends = no_ends }) s
  try_call response took ticket labels (ok c) s =
      let args : EventArgs = record {
        error = none;
        result = none;
        duration = none;
        labels = labels;
      } in
      respond response took (record { ticket = ticket; labels = labels; ends = ends_of c })
        (emit_built ticket args false (ok c) s).1

  abbrev pub with_labels :
      Response → ℕ → ℕ → Result (Option Labels) → Service → Answer Call × Service
  with_labels response took ticket (error e) s = (threw e, s)
  with_labels response took ticket (ok labels) s =
      try_call response took ticket labels (before_config labels) s

  unfoldable pub wrapped_method : Response → ℕ → ℕ → Service → Answer Call × Service
  unfolding failed
  wrapped_method response took ticket s =
      with_labels response took ticket (use_labels (m.labels metrics.labels) metrics.labels) s

  -- The executor of the wrapper's promise. What its `finally` throws rejects the executor's own promise only.
  abbrev pub rejection : String → Option String → Settlement
  rejection e none = rejected e
  rejection e (some f) = never

  abbrev pub reject : String → ℕ → Call → Service → Settlement × Service
  reject e took c s =
      let (thrown, s1) = throw_call e took c s in (rejection e thrown, (finally_call took c s1).1)

  abbrev pub resolve : String → ℕ → Call → Option String × Service → Settlement × Service
  resolve v took c (none, s) = (resolved v, (finally_call took c s).1)
  resolve v took c (some e, s) = reject e took c s

  pub settle : Outcome → ℕ → Call → Service → Settlement × Service
  settle (resolves v) took c s = resolve v took c (after_call v took c s)
  settle (rejects e) took c s = reject e took c s
