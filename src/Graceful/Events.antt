-- ===== src/Graceful/Events.antt =====
-- `GracefulShutdownEventHandler`: src/modules/graceful-shutdown/services/graceful-shutdown.event-handler.ts.
-- What a subscriber's method does is the field `outcome`; logging of single handlers is left out.
pub mod Results
use Prim.Native.String
use demo_hybrid_microservice.Common.{
  ℕ, zero, suc, ◌+◌, String, Bool, true, false, not, List, [], ◌∷◌, ◌++◌, map, Option, none, some,
  if◌then◌else◌, ◌==◌, str_eq, filter_by, length,
}

pub data ShutdownEvent : Type 0 where
  before_destroy after_destroy : ShutdownEvent

abbrev pub same_event : ShutdownEvent → ShutdownEvent → Bool
same_event before_destroy before_destroy = true
same_event after_destroy after_destroy = true
same_event _ _ = false

-- `throws` holds `exception.message`, or `String(exception)` if it is no `Error`.
pub data Outcome : Type 0 where
  completes : Outcome
  throws : String → Outcome

-- `ITargetOnEvent`: the class and method names, and the metadata's event.
pub record OnEvent : Type 0 where
  pub service : String
  pub method : String
  pub event : ShutdownEvent
  pub outcome : Outcome

-- `ResolveEventType`.
pub record ResolveEvent : Type 0 where
  pub service : String
  pub method : String
  pub is_success : Bool
  pub message : Option String

-- `ResultsEventType`.
pub record ResultsEvent : Type 0 where
  pub event : ShutdownEvent
  pub is_success : Bool
  pub total : ℕ
  pub failed : ℕ
  pub details : List ResolveEvent

abbrev pub get_handlers_by_event : List OnEvent → ShutdownEvent → List OnEvent
get_handlers_by_event hs e = filter_by (λ h. same_event h.event e) hs

resolve_outcome : OnEvent → Outcome → ResolveEvent
resolve_outcome h completes = record {
  service = h.service;
  method = h.method;
  is_success = true;
  message = none;
}
resolve_outcome h (throws m) = record {
  service = h.service;
  method = h.method;
  is_success = false;
  message = some m;
}

pub handle_event : OnEvent → ResolveEvent
unfolding resolve_outcome
handle_event h = resolve_outcome h h.outcome

-- The `reduce` over the results: the number of failures, and the list once more.
total_stats : ℕ × List ResolveEvent → List ResolveEvent → ℕ × List ResolveEvent
total_stats store [] = store
total_stats (failed, details) (current ∷ rest) =
    total_stats ((if current.is_success then failed else failed + 1), details ++ current ∷ []) rest

pub processing_event : List OnEvent → ShutdownEvent → ResultsEvent
unfolding total_stats
processing_event hs e =
    let results = map handle_event (get_handlers_by_event hs e) in
    let stats = total_stats (0, []) results in
    record {
      event = e;
      is_success = stats.0 == 0;
      total = length results;
      failed = stats.0;
      details = stats.1;
    }

-- The last log entry of `emit`, which never throws.
pub data Report : Type 0 where
  success : (total : ℕ) → Report
  failure : ResultsEvent → (details : List String) → Report

-- `result.message ? result.message : 'Unknown error'`.
abbrev pub message_of : Option String → String
message_of none = "Unknown error"
message_of (some m) = if str_eq m "" then "Unknown error" else m

abbrev pub detail_line : ResolveEvent → String
detail_line r =
    String.◌++◌ r.service
      (String.◌++◌ "." (String.◌++◌ r.method (String.◌++◌ ": " (message_of r.message))))

pub emit : List OnEvent → ShutdownEvent → Report
emit hs e =
    let results = processing_event hs e in
    if results.is_success
    then success results.total
    else failure results (map detail_line (filter_by (λ r. not r.is_success) results.details))
