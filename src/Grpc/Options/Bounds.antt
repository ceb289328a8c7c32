-- ===== src/Grpc/Options/Bounds.antt =====
-- What the resolved options of a gRPC request promise.
use demo_hybrid_microservice.Common.{
  ℕ, zero, suc, ◌≡◌, refl, Bool, false, not, ◌&&◌, ◌||◌, List, Option, none, some, ℤ, pos, negsuc,
  is_zero_ℤ, if◌then◌else◌, ◌==◌, arith,
}
use demo_hybrid_microservice.Http.Options.{StatusCode, read}
use demo_hybrid_microservice.Http.Options.Bounds.{retries}
use demo_hybrid_microservice.Grpc.Options.{
  RequestOptions, ResolvedOptions, unless_zero, at_least_zero, Environment, resolve, merge,
  get_default_request_options, merge_request_options, request_options,
}

-- The loop of retries is given an end: a time, or a count (0 is no bound for either).
abbrev pub has_end : ResolvedOptions → Bool
has_end o = not (o.retry_timeout == 0) || not (o.retry_max_count == 0)

unless_zero-suc : (n : ℕ) (o : Option ℤ) → is_zero_ℤ (unless_zero (pos (suc n)) o) ≡ false
unless_zero-suc n none = refl
unless_zero-suc n (some (pos zero)) = refl
unless_zero-suc n (some (pos (suc m))) = refl
unless_zero-suc n (some (negsuc m)) = refl

retry_has_end :
    (time count : ℕ) (retry : Option Bool)
    → (retries (if time == 0 && count == 0 then some false else retry)
        && not (not (time == 0) || not (count == 0)))
      ≡ false
retry_has_end time count none = ground arith
retry_has_end time count (some b) = ground arith

module _ (default_codes : List StatusCode) where
  resolve-has_end :
      (q : RequestOptions)
      → let o = resolve default_codes q in
        ((retries o.retry && not (has_end o)) ≡ false)
        × (is_zero_ℤ o.delay ≡ false)
        × (is_zero_ℤ o.timeout ≡ false)
  resolve-has_end q =
      let r = q.retry_options in
      (
        retry_has_end (at_least_zero (read r.timeout)) (at_least_zero (read r.retry_max_count))
            (read r.retry),
        unless_zero-suc _ (read r.delay),
        unless_zero-suc _ (read q.timeout),
      )

  -- Whatever the options of the environment, the module and the call are, a gRPC request is retried only if
  -- its time or the count of retries is bounded; neither the time between retries nor that of an attempt
  -- is 0.
  pub request_options-has_end :
      (env : Environment) (own options : RequestOptions)
      → let o = request_options default_codes env own options in
        ((retries o.retry && not (has_end o)) ≡ false)
        × (is_zero_ℤ o.delay ≡ false)
        × (is_zero_ℤ o.timeout ≡ false)
  unfolding request_options merge_request_options
  request_options-has_end env own options =
      resolve-has_end
        (merge default_codes (get_default_request_options default_codes env own) options)
