-- ===== src/Prometheus/OnMethod/Callbacks.antt =====
-- Calls of wrapped methods that overlap, and the timers that the service keeps for them.
pub mod Clears
pub mod Runs
use demo_hybrid_microservice.Common.{
  ℕ, ◌≡◌, ◌≢◌, refl, sym, ◌∙◌, subst, String, Bool, true, false, not, ◌&&◌, ◌||◌, List, [], ◌∷◌,
  ◌++◌, Option, none, some, ◌==◌, Result, ok, error, if◌then◌else◌, arith, Bool-cases, inl, inr,
}
use demo_hybrid_microservice.Prometheus.Config.{Labels, EventConfig, MetricConfig, build_labels}
use demo_hybrid_microservice.Prometheus.Events.{
  Event, EventArgs, ManagerCall, Service, handle_event, construct, find, is_started,
}
use demo_hybrid_microservice.Prometheus.Events.Passes.{throws_custom, handle_event-build}
use demo_hybrid_microservice.Prometheus.Events.Tickets.{
  event, buffer-emit, callbacks-emit_other, callbacks-emit_idle, callbacks-emit_clear,
}
use demo_hybrid_microservice.Common.Methods.{
  Response, returns, throws, promises, Outcome, resolves, rejects, Answer, returned, threw, pending,
  Settlement, resolved, rejected, never, or_else, seen, settlement_of,
}
use demo_hybrid_microservice.Prometheus.OnMethod.{
  OnMethod, Call, use_labels, before_config, built, ends_of, no_ends, with_labels, after_config,
  throw_config, finally_config, emit_built, after_call, throw_call, finally_call, failed,
  returned_after, respond, try_call, wrapped_method, reject, resolve, settle,
}

-- A method is called with a ticket, or the promise of a pending call settles.
pub data Step : Type 0 where
  called : Response → (took ticket : ℕ) → Step
  settles : (ticket : ℕ) → Outcome → (took : ℕ) → Step

pub record Process : Type 0 where
  pub service : Service
  pub waiting : List Call

abbrev pub is_waiting : ℕ → List Call → Bool
is_waiting t [] = false
is_waiting t (c ∷ cs) = c.ticket == t || is_waiting t cs

abbrev pub call_of : ℕ → List Call → Option Call
call_of t [] = none
call_of t (c ∷ cs) = if c.ticket == t then some c else call_of t cs

abbrev pub without : ℕ → List Call → List Call
without t [] = []
without t (c ∷ cs) = let rest = without t cs in if c.ticket == t then rest else c ∷ rest

abbrev pub add_pending : Answer Call → List Call → List Call
add_pending (pending c) cs = c ∷ cs
add_pending _ cs = cs

-- The service's constructor has run.
abbrev pub started : Process
started = record {
  service = construct (record { buffer = none; callbacks = []; timers = 0; calls = [] });
  waiting = [];
}

module _ (refuses : ManagerCall → Option String) (metrics : MetricConfig) (m : OnMethod) where
  abbrev pub settle_call : ℕ → Outcome → ℕ → Option Call → Process → Process
  settle_call t outcome took none p = p
  settle_call t outcome took (some c) p = record {
    service = (settle refuses metrics m outcome took c p.service).1;
    waiting = without t p.waiting;
  }

  abbrev pub step : Step → Process → Process
  step (called response took t) p =
      let (answer, s) = wrapped_method refuses metrics m response took t p.service in
      record { service = s; waiting = add_pending answer p.waiting }
  step (settles t outcome took) p = settle_call t outcome took (call_of t p.waiting) p

  abbrev pub run : List Step → Process → Process
  run [] p = p
  run (e ∷ es) p = run es (step e p)
