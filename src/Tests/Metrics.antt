-- ===== src/Tests/Metrics.antt =====
-- A method whose calls are timed by a histogram.
use demo_hybrid_microservice.Common.{
  ℕ, ◌≡◌, refl, subst, String, Bool, true, false, [], ◌∷◌, ◌++◌, Option, none, some, ok, arith,
}
use demo_hybrid_microservice.Prometheus.Config.{Labels, off, on, EventConfig, MetricConfig}
use demo_hybrid_microservice.Prometheus.Config.Build.{build, no_config}
use demo_hybrid_microservice.Prometheus.Events.{
  ManagerCall, Service, construct, find, is_started, handle_event,
}
use demo_hybrid_microservice.Prometheus.Events.Passes.{handle_event-build, throws_custom}
use demo_hybrid_microservice.Common.Methods.{
  returns, promises, resolves, rejects, seen, settlement_of,
}
use demo_hybrid_microservice.Prometheus.OnMethod.{
  OnMethod, Call, settle, wrapped_method, finally_config,
}
use demo_hybrid_microservice.Prometheus.OnMethod.Transparent.{
  NeverThrows, history, response_stages, outcome_stages, wrapped_method-transparent,
}
use demo_hybrid_microservice.Prometheus.OnMethod.Callbacks.{called, settles, started, run}
use demo_hybrid_microservice.Prometheus.OnMethod.Callbacks.Clears.{IsTidy}
use demo_hybrid_microservice.Prometheus.OnMethod.Callbacks.Runs.{run-started-callbacks}

abbrev accepted : ManagerCall → Option String
accepted c = none

abbrev metrics : MetricConfig
metrics = record {
  labels = some (("service", "orders") ∷ []);
  counter = none;
  gauge = none;
  histogram = some "calls";
  summary = none;
}

abbrev timer : EventConfig
timer = record no_config {
  histogram = some (record { observe = off; start_timer = on; end = none });
}

abbrev timed : OnMethod
timed = record {
  labels = λ l. ok none;
  before = λ l. ok (some timer);
  after = λ v took l. ok none;
  throw = λ e took l. ok none;
  finally = λ took l. ok none;
}

abbrev constructed : Service
constructed = construct (record { buffer = none; callbacks = []; timers = 0; calls = [] })

abbrev call : Call
call = record { ticket = 4; labels = none; ends = record { histogram = true; summary = false } }

handle_event-build_example :
    (b : EventConfig) × (build (some timer) metrics none none none ≡ ok b)
    × ((handle_event accepted b 4 false constructed).0 ≡ none)
handle_event-build_example = (
  _,
  refl,
  handle_event-build accepted (λ c. refl) (some timer) metrics none none none _ 4 false constructed
      refl refl,
)

finally_made :
    (took ticket : ℕ) (l : Option Labels) (h s : Bool)
    → (b : EventConfig) × (finally_config accepted metrics timed took
          (record { ticket = ticket; labels = l; ends = record { histogram = h; summary = s } })
        ≡ ok b)
      × (throws_custom b ≡ false)
finally_made took ticket l true true = (_, refl, refl)
finally_made took ticket l true false = (_, refl, refl)
finally_made took ticket l false true = (_, refl, refl)
finally_made took ticket l false false = (_, refl, refl)

never_throws : NeverThrows accepted metrics timed
never_throws = record {
  labels = (_, refl);
  before = λ l. (_, refl);
  after = λ v took l. (_, refl);
  throw = λ e took l. (_, refl);
  finally = λ took c.
      let (b, made, calm) = finally_made took c.ticket c.labels c.ends.histogram c.ends.summary in
      (b, made);
}

wrapped_method-transparent_example :
    let (answer, s) = wrapped_method accepted metrics timed (returns "done") 30 4 constructed in
    let (settlement, later) =
      settle accepted metrics timed (rejects "refused") 90 call constructed in
    (seen answer ≡ returns "done")
    × (history s ≡ [] ++ response_stages 4 (returns "done"))
    × (settlement ≡ settlement_of (rejects "refused"))
    × (history later ≡ [] ++ outcome_stages 4 (rejects "refused"))
wrapped_method-transparent_example =
    wrapped_method-transparent accepted metrics timed never_throws (returns "done")
      (rejects "refused") 30 90 4 call constructed constructed [] [] refl refl

tidy : IsTidy accepted metrics timed
tidy = record {
  finally = λ took c. finally_made took c.ticket c.labels c.ends.histogram c.ends.summary;
  after = λ v took l b made.
      let idle : (c : EventConfig)
          → no_config ≡ c
          → (is_started c.histogram ≡ false) × (is_started c.summary ≡ false) =
        (λ c e.
          subst (λ x. (is_started x.histogram ≡ false) × (is_started x.summary ≡ false)) e
            (refl, refl)) in
      idle b (ground (arith, made));
}

run-started-callbacks_example :
    find 4
      (run accepted metrics timed
        (called promises 1 4 ∷ called promises 2 5 ∷ settles 4 (resolves "done") 90 ∷ [])
        started).service.callbacks
    ≡ none
unfolding wrapped_method
run-started-callbacks_example =
    run-started-callbacks accepted metrics timed (λ c. refl) tidy
      (called promises 1 4 ∷ called promises 2 5 ∷ settles 4 (resolves "done") 90 ∷ []) 4 refl
