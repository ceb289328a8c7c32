-- ===== src/Http/Errors/Classes.antt =====
-- What `handleError` makes of each exception, and which exceptions are retried.
use demo_hybrid_microservice.Common.{ℕ, Bool, false, ◌||◌, List, Option, none, some, ◌==◌}
use demo_hybrid_microservice.Http.Options.{StatusCode, number, name, can_retry}
use demo_hybrid_microservice.Http.Errors.{
  Exception, axios_with_response, axios_without_response, timeout_error, other_error, text, unknown,
  Resolved, response, failure,
}

-- `handleError instanceof HttpClientError && canRetry(handleError)`.
abbrev pub is_retried : Option (List StatusCode) → Resolved → Bool
is_retried codes (response status) = false
is_retried codes (failure e) = can_retry (some e.status_code) codes

-- The code by which an exception is looked up.
abbrev pub code_of : Exception → StatusCode
code_of (axios_with_response message status) = number status
code_of (axios_without_response message none) = name "UnknownError"
code_of (axios_without_response message (some code)) = name code
code_of (timeout_error message) = name "timeout"
code_of (other_error message) = name "UnknownError"
code_of (text message) = name "UnknownError"
code_of unknown = name "UnknownError"

-- The other side answered that there is nothing.
abbrev pub is_absent : (not_found no_content : ℕ) → Exception → Bool
is_absent a b (axios_with_response message status) = a == status || b == status
is_absent a b _ = false
