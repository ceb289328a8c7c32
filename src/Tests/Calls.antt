-- ===== src/Tests/Calls.antt =====
-- A gRPC request that is retried once and then answered with an error.
use demo_hybrid_microservice.Common.{◌≡◌, true, false, List, [], ◌∷◌, some, arith}
use demo_hybrid_microservice.Grpc.Errors
use demo_hybrid_microservice.Grpc.Errors.{
  GrpcStatus, Thrown, object, handle_error, numeric, default_codes,
}
use demo_hybrid_microservice.Grpc.Errors.Retries.{is_retried, is_temporary, is_retried-handle_error}
use demo_hybrid_microservice.Grpc.Request.{new_request, Event, fails, fires, run}
use demo_hybrid_microservice.Grpc.Request.Counts.{IsCounted, run-new_request-IsCounted}

abbrev status : GrpcStatus
status = record {
  invalid_argument = 3;
  deadline_exceeded = 4;
  not_found = 5;
  permission_denied = 7;
  unauthenticated = 16;
  unavailable = 14;
}

abbrev thrown : Thrown
thrown = record {
  is_error = true;
  message = some "No connection established";
  code = numeric 14;
  metadata = Errors.Metadata.null;
  details = Errors.Details.absent;
}

is_retried-handle_error_example :
    is_retried status (handle_error status (object thrown)) ≡ is_temporary status (object thrown)
is_retried-handle_error_example =
    is_retried-handle_error status (λ e. ground (arith, e)) (λ e. ground (arith, e)) (object thrown)

abbrev twice_failing : List Event
twice_failing = fails true (object thrown) ∷ fires ∷ fails false (object thrown) ∷ []

run-new_request-IsCounted_example :
    IsCounted (run status (some (default_codes status)) new_request twice_failing)
run-new_request-IsCounted_example =
    run-new_request-IsCounted status (some (default_codes status)) twice_failing
