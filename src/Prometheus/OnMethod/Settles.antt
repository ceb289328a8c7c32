-- ===== src/Prometheus/OnMethod/Settles.antt =====
-- When the promise of a wrapped method settles.
use demo_hybrid_microservice.Common.{
  ℕ, ◌≡◌, refl, String, Bool, true, false, not, Option, none, some, Result, ok, error,
}
use demo_hybrid_microservice.Prometheus.Config.{EventConfig, MetricConfig}
use demo_hybrid_microservice.Prometheus.Events.{EventArgs, ManagerCall, Service}
use demo_hybrid_microservice.Common.Methods.{Outcome, resolves, rejects, Settlement, never}
use demo_hybrid_microservice.Prometheus.OnMethod.{
  OnMethod, Call, after_config, throw_config, emit_built, rejection, resolve, settle,
}

abbrev pub is_error : {A : Type 0} → Result A → Bool
is_error (ok a) = false
is_error (error e) = true

abbrev pub is_settled : Settlement → Bool
is_settled never = false
is_settled _ = true

-- The error that the `throw` option is asked about, if the promise is to reject.
abbrev error_of : Result EventConfig → Option String
error_of (ok c) = none
error_of (error e) = some e

module _ (refuses : ManagerCall → Option String) (metrics : MetricConfig) (m : OnMethod) where
  abbrev pub rejecting : Outcome → ℕ → Call → Option String
  rejecting (rejects e) took c = some e
  rejecting (resolves v) took c = error_of (after_config refuses metrics m v took c.labels)

  abbrev pub loses : Option String → ℕ → Call → Bool
  loses none took c = false
  loses (some e) took c = is_error (throw_config refuses metrics m e took c.labels)

  reject-settled :
      (t : ℕ) (args : EventArgs) (e : String) (r : Result EventConfig) (s : Service)
      → is_settled (rejection refuses metrics m e (emit_built refuses metrics m t args false r s).0)
        ≡ not (is_error r)
  reject-settled t args e (ok c) s = refl
  reject-settled t args e (error f) s = refl

  resolve-settled :
      (t : ℕ) (args : EventArgs) (v : String) (took : ℕ) (c : Call) (r : Result EventConfig)
      (s : Service)
      → is_settled
          (resolve refuses metrics m v took c (emit_built refuses metrics m t args false r s)).0
        ≡ not (loses (error_of r) took c)
  resolve-settled t args v took c (ok b) s = refl
  resolve-settled t args v took c (error e) s = reject-settled c.ticket _ e _ s

  -- The promise that a wrapped method returns settles once the method's promise does, unless the method's
  -- promise rejects, or the `after` option throws, and then the `throw` option throws as well.
  settle-is_settled :
      (outcome : Outcome) (took : ℕ) (c : Call) (s : Service)
      → is_settled (settle refuses metrics m outcome took c s).0
        ≡ not (loses (rejecting outcome took c) took c)
  unfolding settle
  settle-is_settled (rejects e) took c s = reject-settled c.ticket _ e _ s
  settle-is_settled (resolves v) took c s =
      resolve-settled c.ticket
        (record { error = none; result = some v; duration = some took; labels = c.labels }) v took c
        (after_config refuses metrics m v took c.labels) s
