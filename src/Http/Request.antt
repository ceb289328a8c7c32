-- ===== src/Http/Request.antt =====
-- The life of a request: the pipe of `request` in
-- src/modules/http/http-client/services/http-client.service.ts, as callbacks that rxjs runs. `retry` asks
-- its `delay` callback after a failed attempt while its count is not used up; `timeout` may end the
-- request at any moment; the finalizer runs once. When each of these happens is given by the events.
pub mod Timers
use demo_hybrid_microservice.Common.{
  ℕ, ◌+◌, String, Bool, true, false, List, [], ◌∷◌, Option, none, some, if◌then◌else◌,
}
use demo_hybrid_microservice.Http.Options.{StatusCode, can_retry}
use demo_hybrid_microservice.Http.Errors.{
  Exception, timeout_error, Resolved, response, failure, HttpClientError, handle_error,
}

-- An attempt is under way, or the next one waits for its timer, or the request has ended.
pub data Phase : Type 0 where
  running waiting finished : Phase

pub data Outcome : Type 0 where
  resolves : (status : ℕ) → Outcome
  rejects : HttpClientError → Outcome

-- `timing` is `end !== undefined`; `started` and `ended` count the histogram's timers, `failed` and
-- `retried` the increments of HTTP_EXTERNAL_REQUEST_FAILED and HTTP_EXTERNAL_REQUEST_RETRY.
pub record Request : Type 0 where
  pub phase : Phase
  pub timing : Bool
  pub started : ℕ
  pub ended : ℕ
  pub failed : ℕ
  pub retried : ℕ
  pub outcome : Option Outcome

abbrev pub new_request : Request
new_request = record {
  phase = running;
  timing = true;
  started = 1;
  ended = 0;
  failed = 0;
  retried = 0;
  outcome = none;
}

-- `if (end !== undefined) { end(); }`.
end_timer : Request → Request
end_timer r = if r.timing then record r { ended = r.ended + 1 } else r

-- `finalize`.
finalize : Outcome → Request → Request
unfolding end_timer
finalize o r = record (end_timer r) { phase = finished; outcome = some o }

-- `catchError`.
catch_error : Resolved → Request → Request
unfolding finalize
catch_error (failure e) r = finalize (rejects e) (record r { failed = r.failed + 1 })
catch_error (response status) r = finalize (resolves status) r

-- The `delay` callback up to its promise, if it returns one.
wait_retry : Request → Request
unfolding end_timer
wait_retry r = record (end_timer r) { phase = waiting; timing = false; failed = r.failed + 1 }

-- The callback of `setTimeout`.
retry_attempt : Request → Request
retry_attempt r = record r {
  phase = running;
  timing = true;
  started = r.started + 1;
  retried = r.retried + 1;
}

-- What happens, where it can: an attempt succeeds; it fails, and `retry` asks its callback or does not;
-- the timer of the next attempt fires; the time is over.
pub data Event : Type 0 where
  succeeds : (status : ℕ) → Event
  fails : (asked : Bool) → Exception → Event
  fires : Event
  times_out : (message : String) → Event

-- The constants of axios, as in `handleError`, and the status codes of the options.
module _ (not_found no_content : ℕ) (timeout_codes external_codes : List String)
    (codes : Option (List StatusCode)) where
  retry_or_throw : Resolved → Request → Request
  unfolding catch_error wait_retry
  retry_or_throw (failure e) r =
      if can_retry (some e.status_code) codes then wait_retry r else catch_error (failure e) r
  retry_or_throw (response status) r = catch_error (response status) r

  pub attempt_fails : Bool → Exception → Request → Request
  unfolding retry_or_throw
  attempt_fails true e r =
      retry_or_throw (handle_error not_found no_content timeout_codes external_codes e) r
  attempt_fails false e r =
      catch_error (handle_error not_found no_content timeout_codes external_codes e) r

  handle : Phase → Event → Request → Request
  unfolding attempt_fails finalize retry_attempt
  handle running (succeeds status) r = finalize (resolves status) r
  handle running (fails asked e) r = attempt_fails asked e r
  handle running fires r = r
  handle running (times_out m) r =
      catch_error (handle_error not_found no_content timeout_codes external_codes (timeout_error m))
        r
  handle waiting fires r = retry_attempt r
  handle waiting (times_out m) r =
      catch_error (handle_error not_found no_content timeout_codes external_codes (timeout_error m))
        r
  handle waiting (succeeds status) r = r
  handle waiting (fails asked e) r = r
  handle finished event r = r

  pub step : Request → Event → Request
  unfolding handle
  step r e = handle r.phase e r

  pub run : Request → List Event → Request
  unfolding step
  run r [] = r
  run r (e ∷ es) = run (step r e) es
