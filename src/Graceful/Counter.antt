-- ===== src/Graceful/Counter.antt =====
-- The counter of active methods: services/graceful-shutdown.count-handle.ts and the decorator of
-- decorators/graceful-shutdown.on-count.ts in src/modules/graceful-shutdown.
pub mod Balance
pub mod Emissions
pub mod Status
use demo_hybrid_microservice.Common.{
  ℕ, ◌+◌, String, Bool, true, false, List, [], ◌∷◌, ◌++◌, Option, none, some, ℤ, pos, sub_ℕ,
  increment_ℤ, decrement_ℤ, is_zero_ℤ, if◌then◌else◌, ◌==◌, str_eq,
}

-- `GracefulShutdownCountType` without its optional fields: the labels of every metric.
pub record CountType : Type 0 where
  pub service : String
  pub method : String

-- The calls of `prometheusManager`, in order. The metric services catch what prom-client throws.
pub data Metric : Type 0 where
  gauge_increment : CountType → Metric
  gauge_decrement : CountType → Metric
  duration_observe : CountType → ℤ → Metric
  failed_increment : CountType → Metric

-- `published` is what the `BehaviorSubject` has emitted, in order; its value is `total`.
pub record CountHandler : Type 0 where
  pub total : ℤ
  pub published : List ℤ
  pub metrics : List Metric

abbrev pub new_handler : CountHandler
new_handler = record { total = pos 0; published = pos 0 ∷ []; metrics = [] }

next_total : CountHandler → ℤ → CountHandler
next_total h v = record h { total = v; published = h.published ++ v ∷ [] }

pub increment : CountHandler → CountType → CountHandler
unfolding next_total
increment h m =
    let next = next_total h (increment_ℤ h.total) in
    record next { metrics = next.metrics ++ gauge_increment m ∷ [] }

abbrev failure_metric : Bool → CountType → List Metric
failure_metric true m = []
failure_metric false m = failed_increment m ∷ []

-- The duration is in milliseconds, before the division by `MILLISECONDS_IN_SECOND`.
pub decrement : CountHandler → CountType → ℤ → Bool → CountHandler
unfolding next_total
decrement h m duration is_success =
    let next = next_total h (decrement_ℤ h.total) in
    record next {
      metrics =
          next.metrics
          ++ (gauge_decrement m ∷ duration_observe m duration ∷ failure_metric is_success m);
    }

-- What the wrapped method does: it returns a value, throws, or returns a promise.
pub data Response : Type 0 where
  returns throws : Response
  promises : ℕ → Response

-- A call whose promise has not settled. `bound` says whether `Reflect.getMetadata` gave the handler
-- when the call began.
pub record Call : Type 0 where
  pub id : ℕ
  pub labels : CountType
  pub bound : Bool
  pub start : ℕ

-- `ready` is set by `onModuleInit`, which hands the handler to the decorated methods.
pub record Process : Type 0 where
  pub handler : CountHandler
  pub ready : Bool
  pub pending : List Call

abbrev pub boot : Process
boot = record { handler = new_handler; ready = false; pending = [] }

pub on_module_init : Process → Process
on_module_init p = record p { ready = true }

-- `options?.increment?.call` and `options?.decrement?.call`.
optional_increment : Bool → CountHandler → CountType → CountHandler
optional_increment bound h m = if bound then increment h m else h

optional_decrement : Bool → CountHandler → CountType → ℤ → Bool → CountHandler
optional_decrement bound h m duration is_success =
    if bound then decrement h m duration is_success else h

respond : Response → CountType → ℕ → ℕ → Process → Process
unfolding optional_decrement
respond returns m start now p = record p {
  handler = optional_decrement p.ready p.handler m (sub_ℕ now start) true;
}
respond throws m start now p = record p {
  handler = optional_decrement p.ready p.handler m (sub_ℕ now start) false;
}
respond (promises id) m start now p = record p {
  pending = record { id = id; labels = m; bound = p.ready; start = start } ∷ p.pending;
}

-- `wrappedMethod`: begun at `start`; a synchronous end is at `now`.
pub wrapped_method : CountType → Response → ℕ → ℕ → Process → Process
unfolding optional_increment respond
wrapped_method m r start now p =
    respond r m start now (record p { handler = optional_increment p.ready p.handler m })

pub find_call : ℕ → List Call → Option Call
find_call id [] = none
find_call id (c ∷ cs) = if c.id == id then some c else find_call id cs

pub remove_call : ℕ → List Call → List Call
remove_call id [] = []
remove_call id (c ∷ cs) = if c.id == id then cs else c ∷ remove_call id cs

-- The `.then` and `.catch` callbacks of a promise that settles at `now`.
settle_call : ℕ → Option Call → ℕ → Bool → Process → Process
unfolding optional_decrement
settle_call id none now is_success p = p
settle_call id (some c) now is_success p = record p {
  handler = optional_decrement c.bound p.handler c.labels (sub_ℕ now c.start) is_success;
  pending = remove_call id p.pending;
}

pub settle : ℕ → ℕ → Bool → Process → Process
unfolding settle_call
settle id now is_success p = settle_call id (find_call id p.pending) now is_success p

-- What can happen in the process, in any order.
pub data Event : Type 0 where
  init : Event
  call : CountType → Response → (start now : ℕ) → Event
  settles : (id now : ℕ) → (is_success : Bool) → Event

pub step : Process → Event → Process
step p init = on_module_init p
step p (call m r start now) = wrapped_method m r start now p
step p (settles id now is_success) = settle id now is_success p

unfoldable pub run : Process → List Event → Process
run p [] = p
run p (e ∷ es) = run (step p e) es
