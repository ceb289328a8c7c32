-- ===== src/Grpc/Errors.antt =====
-- What becomes of an exception: `handleError` of
-- src/modules/grpc/grpc-client/filters/grpc-client.response.handler.ts, with `isGrpcServiceError` and the
-- classes of src/modules/grpc/grpc-client/errors. The headers of an error are left out, and what is logged.
pub mod Retries
use demo_hybrid_microservice.Common.{
  ℕ, String, Bool, true, false, ◌&&◌, ◌||◌, List, [], ◌∷◌, Option, none, some, if◌then◌else◌, ◌==◌,
  any_of,
}
use demo_hybrid_microservice.Http.Options.{StatusCode, number, name}

-- The properties that are looked at. `strange` is a value of another type.
pub data Code : Type 0 where
  absent strange : Code
  numeric : ℕ → Code

pub data Metadata : Type 0 where
  absent undefined null strange : Metadata
  metadata : Metadata

pub data Details : Type 0 where
  absent undefined strange : Details
  text_details : String → Details

-- An object that is thrown; its message counts if it is a string. `strange` stands for null too.
pub record Thrown : Type 0 where
  pub is_error : Bool
  pub message : Option String
  pub code : Code
  pub metadata : Metadata
  pub details : Details

-- `unknown` holds what is no object and no string; both of the errors of time are `timed_out`.
pub data Exception : Type 0 where
  timed_out : (message : String) → Exception
  object : Thrown → Exception
  text : String → Exception
  unknown : Exception

-- The subclasses of `GrpcClientError`, which give its `loggerMarker`.
pub data ErrorKind : Type 0 where
  timeout internal external : ErrorKind

pub record GrpcClientError : Type 0 where
  pub kind : ErrorKind
  pub message : String
  pub status_code : StatusCode
  pub details : Option String

-- `IGrpcClientError | null`
pub data Resolved : Type 0 where
  nothing : Resolved
  failure : GrpcClientError → Resolved

abbrev code_of : Code → Option ℕ
code_of (Code.numeric n) = some n
code_of _ = none

abbrev has_metadata : Metadata → Bool
has_metadata Metadata.null = true
has_metadata Metadata.metadata = true
has_metadata _ = false

abbrev has_details : Details → Bool
has_details Details.strange = false
has_details _ = true

-- The code of a `ServiceError`, if the object is one.
unfoldable pub is_grpc_service_error : Thrown → Option ℕ
is_grpc_service_error t =
    if t.is_error && has_metadata t.metadata && has_details t.details then code_of t.code else none

abbrev or_unknown : Option StatusCode → StatusCode
or_unknown none = name "UnknownError"
or_unknown (some c) = c

-- The messages that the subclasses fill in.
abbrev default_message : ErrorKind → String
default_message timeout = "gRPC Server Timeout Error"
default_message internal = "Internal gRPC Server Error"
default_message external = "External gRPC Server Error"

abbrev or_message : String → Option String → String
or_message d none = d
or_message d (some m) = m

abbrev details_of : Details → Option String
details_of (Details.text_details s) = some s
details_of _ = none

abbrev new_error : ErrorKind → Option String → Option StatusCode → Option String → Resolved
new_error kind message code details = failure (record {
  kind = kind;
  message = or_message (default_message kind) message;
  status_code = or_unknown code;
  details = details;
})

-- The constants of grpc-js that are used.
pub record GrpcStatus : Type 0 where
  pub invalid_argument : ℕ
  pub deadline_exceeded : ℕ
  pub not_found : ℕ
  pub permission_denied : ℕ
  pub unauthenticated : ℕ
  pub unavailable : ℕ

module _ (status : GrpcStatus) where
  abbrev internal_codes : List ℕ
  internal_codes =
      status.invalid_argument ∷ status.deadline_exceeded ∷ status.permission_denied
      ∷ status.unauthenticated ∷ []

  abbrev pub service_error : Thrown → ℕ → Resolved
  service_error t code =
      if any_of (λ c. c == code) internal_codes
      then new_error internal t.message (some (number code)) (details_of t.details)
      else (if code == status.not_found
          then nothing
          else new_error external t.message (some (number code)) (details_of t.details))

  abbrev pub handle_thrown : Thrown → Option ℕ → Resolved
  handle_thrown t (some code) = service_error t code
  handle_thrown t none = new_error external t.message none none

  unfoldable pub handle_error : Exception → Resolved
  unfolding is_grpc_service_error
  handle_error (timed_out message) = new_error timeout (some message) (some (name "timeout")) none
  handle_error (object t) = handle_thrown t (is_grpc_service_error t)
  handle_error (text message) = new_error external (some message) none none
  handle_error unknown = new_error external none none none

-- `GRPC_CLIENT_DEFAULT_OPTIONS.retryOptions.statusCodes`
abbrev pub default_codes : GrpcStatus → List StatusCode
default_codes status =
    number status.deadline_exceeded ∷ number status.unavailable ∷ name "timeout" ∷ []
