-- ===== src/Http/Options/Bounds.antt =====
-- What the resolved options of a request promise.
use demo_hybrid_microservice.Common.{
  ℕ, zero, suc, ◌≡◌, refl, Bool, true, false, not, ◌&&◌, ◌||◌, List, Option, none, some, ℤ, pos,
  negsuc, is_zero_ℤ, ◌==◌, arith,
}
use demo_hybrid_microservice.Http.Options.{
  StatusCode, RetryOptions, no_retry_options, ResolvedOptions, spread_options, read, resolve_delay,
  resolve_count, resolve_retry, Environment, at_least_one, default_retry_options,
  merge_request_options, get_http_request_options, get_default_request_options, request_options,
}

-- `retry` is used unless the option is `false`.
abbrev pub retries : Option Bool → Bool
retries none = true
retries (some b) = b

-- The loop of retries is given an end: a time, or a count (0 is no bound for either).
abbrev pub has_end : ResolvedOptions → Bool
has_end o = not (o.timeout == 0) || not (o.retry_max_count == 0)

resolve_delay-nonzero : (o : Option ℤ) → is_zero_ℤ (resolve_delay o) ≡ false
unfolding resolve_delay
resolve_delay-nonzero none = refl
resolve_delay-nonzero (some (pos zero)) = refl
resolve_delay-nonzero (some (pos (suc n))) = refl
resolve_delay-nonzero (some (negsuc n)) = refl

resolve_retry-has_end :
    (timeout count : ℕ) (retry : Option Bool)
    → (retries (resolve_retry timeout count retry) && not (not (timeout == 0) || not (count == 0)))
      ≡ false
unfolding resolve_retry
resolve_retry-has_end timeout count none = ground arith
resolve_retry-has_end timeout count (some b) = ground arith

-- The unset limits of the environment stay unset.
unset-resolve_count : (d : ℤ) → resolve_count (read (at_least_one d none)) ≡ 0
unfolding resolve_count at_least_one
unset-resolve_count d = refl

module _ (default_codes : List StatusCode) where
  -- Whatever the options of the environment, the module and the call are, a request is not retried
  -- without an end: it is retried only if its time or the count of retries is bounded; and the time
  -- between retries is not 0.
  pub request_options-has_end :
      (env : Environment) (own options : RetryOptions)
      → let o = request_options default_codes env own options in
        ((retries o.retry && not (has_end o)) ≡ false) × (is_zero_ℤ o.delay ≡ false)
  unfolding request_options merge_request_options
  request_options-has_end env own options =
      let global = get_default_request_options default_codes env own in
      let merged =
        spread_options (spread_options (default_retry_options default_codes) global) options in
      let o = request_options default_codes env own options in
      (
        resolve_retry-has_end o.timeout o.retry_max_count (read merged.retry),
        resolve_delay-nonzero (read merged.delay),
      )

  -- If neither limit is set in the environment, and the module and the call give no options, nothing is
  -- retried, enabled or not, and no time is set: the defaults for the limits do not take effect.
  unset_limits :
      (env : Environment)
      → env.timeout ≡ none
      → env.max_count ≡ none
      → let o = request_options default_codes env no_retry_options no_retry_options in
        (o.retry ≡ some false) × (o.timeout ≡ 0) × (o.retry_max_count ≡ 0)
  unfolding request_options merge_request_options get_default_request_options
      get_http_request_options resolve_count at_least_one resolve_retry
  unset_limits env t m = (rw (t, m) refl, rw t refl, rw m refl)
