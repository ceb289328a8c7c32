-- ===== src/Http/Errors.antt =====
-- What becomes of an exception: `handleError` of
-- src/modules/http/http-client/filters/http-client.response.handler.ts, with the classes of
-- src/modules/http/http-client/errors.
pub mod Classes
use demo_hybrid_microservice.Common.{
  ℕ, String, Bool, true, false, List, [], ◌∷◌, Option, none, some, if◌then◌else◌, ◌==◌, ◌||◌,
  str_eq, includes,
}
use demo_hybrid_microservice.Http.Options.{StatusCode, number, name}

-- `unknown` holds what is neither an error nor a string.
pub data Exception : Type 0 where
  axios_with_response : (message : String) (status : ℕ) → Exception
  axios_without_response : (message : String) (code : Option String) → Exception
  timeout_error : (message : String) → Exception
  other_error : (message : String) → Exception
  text : String → Exception
  unknown : Exception

-- The subclasses of `HttpClientError`, which give its `loggerMarker`.
pub data ErrorKind : Type 0 where
  timeout internal external : ErrorKind

-- The constructor of `HttpClientError` fills in the message and the status code.
pub record HttpClientError : Type 0 where
  pub kind : ErrorKind
  pub message : String
  pub status_code : StatusCode

-- `response` is the response with its data taken away.
pub data Resolved : Type 0 where
  response : (status : ℕ) → Resolved
  failure : HttpClientError → Resolved

-- A timeout error without a code has one of its own.
abbrev default_code : ErrorKind → StatusCode
default_code timeout = name "timeout"
default_code internal = name "UnknownError"
default_code external = name "UnknownError"

abbrev or_code : StatusCode → Option StatusCode → StatusCode
or_code d none = d
or_code d (some c) = c

-- The messages that the subclasses fill in.
abbrev default_message : ErrorKind → String
default_message timeout = "HTTP Server TimeoutError"
default_message internal = "Internal HTTP Server Error"
default_message external = "External HTTP Server Error"

abbrev or_message : String → Option String → String
or_message d none = d
or_message d (some m) = m

new_error : ErrorKind → Option String → Option StatusCode → Resolved
new_error kind message code = failure (record {
  kind = kind;
  message = or_message (default_message kind) message;
  status_code = or_code (default_code kind) code;
})

-- `exception.code ?? ''`, and the code as a status code.
abbrev code_text : Option String → String
code_text none = ""
code_text (some c) = c

abbrev code_status : Option String → Option StatusCode
code_status none = none
code_status (some c) = some (name c)

-- The constants of axios: the statuses NotFound and NoContent, and the codes of timeouts and of errors of
-- the other side.
module _ (not_found no_content : ℕ) (timeout_codes external_codes : List String) where
  kind_of : String → ErrorKind
  kind_of code =
      if includes timeout_codes code
      then timeout
      else (if includes external_codes code then external else internal)

  pub handle_error : Exception → Resolved
  unfolding new_error kind_of
  handle_error (axios_with_response message status) =
      if not_found == status || no_content == status
      then response status
      else new_error external (some message) (some (number status))
  handle_error (axios_without_response message code) =
      new_error (kind_of (code_text code)) (some message) (code_status code)
  handle_error (timeout_error message) = new_error timeout (some message) none
  handle_error (other_error message) = new_error internal (some message) none
  handle_error (text message) = new_error internal (some message) none
  handle_error unknown = new_error internal none none
