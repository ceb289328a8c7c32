-- ===== src/Grpc/Request.antt =====
-- The life of a gRPC request: the pipe of `request` in
-- src/modules/grpc/grpc-client/services/grpc-client.service.ts, as callbacks that rxjs runs. `retry` asks
-- its `delay` callback after a failed attempt while its count is not used up; a `timeout` ends an attempt
-- or the request at any moment; the finalizer runs once. When each of these happens is given by the events.
pub mod Counts
use demo_hybrid_microservice.Common.{
  ℕ, ◌+◌, String, Bool, true, false, List, [], ◌∷◌, Option, none, some, if◌then◌else◌,
}
use demo_hybrid_microservice.Http.Options.{StatusCode}
use demo_hybrid_microservice.Grpc.Options.{can_retry}
use demo_hybrid_microservice.Grpc.Errors.{
  Exception, timed_out, Resolved, nothing, failure, GrpcClientError, GrpcStatus, handle_error,
}

-- An attempt is under way, or the next one waits for its timer, or the request has ended.
pub data Phase : Type 0 where
  running waiting finished : Phase

-- `empty` is the `EmptyError` of `firstValueFrom`; `resolves_null` is the answer for an error NOT_FOUND.
pub data Outcome : Type 0 where
  pending resolves resolves_null empty : Outcome
  rejects : GrpcClientError → Outcome

-- `timing` is `end !== undefined`; `started` and `ended` count the histogram's timers, `failed` and
-- `retried` the increments of GRPC_EXTERNAL_REQUEST_FAILED and GRPC_EXTERNAL_REQUEST_RETRY.
pub record Request : Type 0 where
  pub phase : Phase
  pub timing : Bool
  pub started : ℕ
  pub ended : ℕ
  pub failed : ℕ
  pub retried : ℕ
  pub outcome : Outcome

abbrev pub new_request : Request
new_request = record {
  phase = running;
  timing = true;
  started = 1;
  ended = 0;
  failed = 0;
  retried = 0;
  outcome = pending;
}

-- `if (end !== undefined) { end(); }`
abbrev pub ended_timers : Request → ℕ
ended_timers r = if r.timing then r.ended + 1 else r.ended

-- `finalize`
abbrev pub finalize : Outcome → Request → Request
finalize o r = record r { ended = ended_timers r; phase = finished; outcome = o }

-- `catchError`
abbrev pub catch_error : Resolved → Request → Request
catch_error (failure e) r = finalize (rejects e) (record r { failed = r.failed + 1 })
catch_error nothing r = finalize resolves_null r

-- The `delay` callback up to its promise, if it returns one.
abbrev pub wait_retry : Request → Request
wait_retry r = record r {
  ended = ended_timers r;
  phase = waiting;
  timing = false;
  failed = r.failed + 1;
}

-- The callback of `setTimeout`.
abbrev pub retry_attempt : Request → Request
retry_attempt r = record r {
  phase = running;
  timing = true;
  started = r.started + 1;
  retried = r.retried + 1;
}

-- What happens, where it can: the call gives a value, or ends without one; it fails, and `retry` asks its
-- callback or does not; the timer of the next attempt fires; the time of the request is over.
pub data Event : Type 0 where
  succeeds completes fires : Event
  fails : (asked : Bool) → Exception → Event
  times_out : (message : String) → Event

-- The constants of grpc-js, and the status codes of the options.
module _ (status : GrpcStatus) (codes : Option (List StatusCode)) where
  abbrev pub retry_or_throw : Resolved → Request → Request
  retry_or_throw (failure e) r =
      if can_retry e.status_code codes then wait_retry r else catch_error (failure e) r
  retry_or_throw nothing r = catch_error nothing r

  abbrev pub attempt_fails : Bool → Resolved → Request → Request
  attempt_fails true o r = retry_or_throw o r
  attempt_fails false o r = catch_error o r

  abbrev pub handle : Phase → Event → Request → Request
  handle running succeeds r = finalize resolves r
  handle running completes r = finalize empty r
  handle running (fails asked e) r = attempt_fails asked (handle_error status e) r
  handle running fires r = r
  handle running (times_out m) r = catch_error (handle_error status (timed_out m)) r
  handle waiting fires r = retry_attempt r
  handle waiting (times_out m) r = catch_error (handle_error status (timed_out m)) r
  handle waiting succeeds r = r
  handle waiting completes r = r
  handle waiting (fails asked e) r = r
  handle finished event r = r

  pub step : Request → Event → Request
  step r e = handle r.phase e r

  pub run : Request → List Event → Request
  unfolding step
  run r [] = r
  run r (e ∷ es) = run (step r e) es
