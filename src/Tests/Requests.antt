-- ===== src/Tests/Requests.antt =====
-- A request that is retried once, and one without limits.
use demo_hybrid_microservice.Common.{
  ◌≡◌, String, true, false, not, ◌&&◌, List, [], ◌∷◌, some, none, pos, negsuc, is_zero_ℤ, value,
}
use demo_hybrid_microservice.Http.Options.{
  StatusCode, number, name, RetryOptions, no_retry_options, Environment, request_options,
}
use demo_hybrid_microservice.Http.Options.Bounds.{retries, has_end, request_options-has_end}
use demo_hybrid_microservice.Http.Errors.{axios_with_response}
use demo_hybrid_microservice.Http.Request.{new_request, Event, succeeds, fails, fires, run}
use demo_hybrid_microservice.Http.Request.Timers.{IsTimed, run-new_request-IsTimed}

abbrev gateway_codes : List StatusCode
gateway_codes = number 502 ∷ name "ECONNRESET" ∷ []

abbrev without_limits : Environment
without_limits = record {
  enabled = true;
  timeout = none;
  delay = none;
  max_count = none;
  status_codes = [];
}

abbrev no_delay : RetryOptions
no_delay = record no_retry_options { timeout = value (negsuc 0); delay = value (pos 0) }

request_options-has_end_example :
    let o = request_options gateway_codes without_limits no_delay no_retry_options in
    ((retries o.retry && not (has_end o)) ≡ false) × (is_zero_ℤ o.delay ≡ false)
request_options-has_end_example =
    request_options-has_end gateway_codes without_limits no_delay no_retry_options

abbrev timeout_texts : List String
timeout_texts = "ECONNABORTED" ∷ "ETIMEDOUT" ∷ []

abbrev external_texts : List String
external_texts = "ERR_NETWORK" ∷ []

abbrev retried_once : List Event
retried_once = fails true (axios_with_response "bad gateway" 502) ∷ fires ∷ succeeds 200 ∷ []

run-new_request-IsTimed_example :
    IsTimed (run 404 204 timeout_texts external_texts (some gateway_codes) new_request retried_once)
run-new_request-IsTimed_example =
    run-new_request-IsTimed 404 204 timeout_texts external_texts (some gateway_codes) retried_once
