-- ===== src/Grpc/Errors/Retries.antt =====
-- Which exceptions the default options of a gRPC request retry.
use demo_hybrid_microservice.Common.{
  ℕ, ◌≡◌, ◌≢◌, refl, Bool, true, false, ◌||◌, Option, none, some, ◌==◌, any_of, arith, Bool-cases,
  inl, inr,
}
use demo_hybrid_microservice.Grpc.Options.{can_retry}
use demo_hybrid_microservice.Grpc.Errors.{
  Exception, timed_out, object, text, unknown, Thrown, Resolved, nothing, failure, GrpcStatus,
  is_grpc_service_error, service_error, handle_thrown, handle_error, default_codes, internal_codes,
}

-- Whether the callback of `retry` waits for another attempt.
abbrev pub is_retried : GrpcStatus → Resolved → Bool
is_retried status nothing = false
is_retried status (failure e) = can_retry e.status_code (some (default_codes status))

abbrev pub is_passing : GrpcStatus → Option ℕ → Bool
is_passing status none = false
is_passing status (some code) = code == status.deadline_exceeded || code == status.unavailable

-- An exception that another attempt may not meet.
abbrev pub is_temporary : GrpcStatus → Exception → Bool
is_temporary status (timed_out message) = true
is_temporary status (object t) = is_passing status (is_grpc_service_error t)
is_temporary status (text message) = false
is_temporary status unknown = false

module _ (status : GrpcStatus) (h : status.not_found ≢ status.deadline_exceeded)
    (g : status.not_found ≢ status.unavailable) where
  service_error-is_retried :
      (t : Thrown) (code : ℕ)
      → is_retried status (service_error status t code) ≡ is_passing status (some code)
  service_error-is_retried t code =
      elim (Bool-cases (any_of (λ c. c == code) (internal_codes status))) [
        | inl internal ↦ rw internal (ground (arith, internal))
        | inr others ↦ elim (Bool-cases (code == status.not_found)) [
          | inl missing ↦ rw (others, missing) (ground (arith, missing, h, g))
          | inr other ↦ rw (others, other) (ground (arith, others, other))
        ]
      ]

  handle_thrown-is_retried :
      (t : Thrown) (o : Option ℕ)
      → is_retried status (handle_thrown status t o) ≡ is_passing status o
  handle_thrown-is_retried t none = refl
  handle_thrown-is_retried t (some code) = service_error-is_retried t code

  -- If NOT_FOUND is none of the two codes, then with the default status codes the test of the code by which
  -- the callback of retry, where it is asked, decides on another attempt of a gRPC request holds exactly
  -- if the attempt's time was over, or it failed with a service error whose code is DEADLINE_EXCEEDED or
  -- UNAVAILABLE.
  pub is_retried-handle_error :
      (e : Exception) → is_retried status (handle_error status e) ≡ is_temporary status e
  unfolding handle_error
  is_retried-handle_error (timed_out message) = refl
  is_retried-handle_error (object t) = handle_thrown-is_retried t (is_grpc_service_error t)
  is_retried-handle_error (text message) = refl
  is_retried-handle_error unknown = refl
