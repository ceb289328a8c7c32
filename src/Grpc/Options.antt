-- ===== src/Grpc/Options.antt =====
-- The options of a gRPC request: `mergeRequestOptions` and `canRetry` of
-- src/modules/grpc/grpc-client/helpers/grpc-client.helper.ts, `getGrpcRequestOptions` of
-- services/grpc-client.config.service.ts and `getDefaultRequestOptions` of services/grpc-client.service.ts.
-- The options of the metadata's builder are left out.
pub mod Bounds
use demo_hybrid_microservice.Common.{
  ℕ, zero, suc, ◌≡◌, refl, Bool, true, false, not, ◌&&◌, ◌||◌, List, [], ◌∷◌, Option, none, some, ℤ,
  pos, negsuc, is_zero_ℤ, if◌then◌else◌, ◌==◌, any_of, Property, missing, undefined, value, spread,
  arith,
}
use demo_hybrid_microservice.Http.Options.{
  StatusCode, same_code, RetryOptions, spread_options, read,
}

pub record RequestOptions : Type 0 where
  pub timeout : Property ℤ
  pub retry_options : RetryOptions

-- `IGrpcResolvedRequestOptions`; `none` is `undefined`.
pub record ResolvedOptions : Type 0 where
  pub timeout : ℤ
  pub retry : Option Bool
  pub retry_timeout : ℕ
  pub delay : ℤ
  pub retry_max_count : ℕ
  pub status_codes : Option (List StatusCode)

abbrev pub spread_request : RequestOptions → RequestOptions → RequestOptions
spread_request a b = record {
  timeout = spread a.timeout b.timeout;
  retry_options = spread_options a.retry_options b.retry_options;
}

-- `if (!n) { n = default; }`
abbrev pub unless_zero : ℤ → Option ℤ → ℤ
unless_zero d none = d
unless_zero d (some (pos zero)) = d
unless_zero d (some (pos (suc n))) = pos (suc n)
unless_zero d (some (negsuc n)) = negsuc n

-- `if (n === undefined || n < 0) { n = 0; }`
abbrev pub at_least_zero : Option ℤ → ℕ
at_least_zero none = 0
at_least_zero (some (pos n)) = n
at_least_zero (some (negsuc n)) = 0

abbrev pub can_retry : StatusCode → Option (List StatusCode) → Bool
can_retry code none = false
can_retry code (some codes) = any_of (same_code code) codes

-- What the environment gives: `none` is the `false` of `parseInt`, and the codes are read as numbers
-- where `parseInt` reads one.
pub record Environment : Type 0 where
  pub request_timeout : Option ℤ
  pub enabled : Bool
  pub retry_timeout : Option ℤ
  pub delay : Option ℤ
  pub max_count : Option ℤ
  pub status_codes : List StatusCode

-- `n === false || n < 1 ? default : n`, and `n !== false && n < 1 ? default : n` with `false` as `undefined`.
abbrev pub positive_or : ℤ → Option ℤ → Property ℤ
positive_or d (some (pos (suc n))) = value (pos (suc n))
positive_or d _ = value d

abbrev pub positive_if_set : ℤ → Option ℤ → Property ℤ
positive_if_set d none = undefined
positive_if_set d (some n) = positive_or d (some n)

-- `default_codes` are the status codes of GRPC_CLIENT_DEFAULT_OPTIONS, which has constants of grpc-js.
module _ (default_codes : List StatusCode) where
  abbrev pub default_retry_options : RetryOptions
  default_retry_options = record {
    retry = missing;
    timeout = value (pos 120000);
    delay = value (pos 5000);
    retry_max_count = value (pos 5);
    status_codes = value default_codes;
  }

  abbrev pub resolve : RequestOptions → ResolvedOptions
  resolve o =
      let r = o.retry_options in
      let count = at_least_zero (read r.retry_max_count) in
      let time = at_least_zero (read r.timeout) in
      record {
        timeout = unless_zero (pos 15000) (read o.timeout);
        retry = if time == 0 && count == 0 then some false else read r.retry;
        retry_timeout = time;
        delay = unless_zero (pos 5000) (read r.delay);
        retry_max_count = count;
        status_codes = read r.status_codes;
      }

  abbrev pub merge : RequestOptions → RequestOptions → RequestOptions
  merge global options = record {
    timeout = spread global.timeout options.timeout;
    retry_options =
        spread_options (spread_options default_retry_options global.retry_options)
          options.retry_options;
  }

  pub merge_request_options : RequestOptions → RequestOptions → ResolvedOptions
  merge_request_options global options = resolve (merge global options)

  abbrev codes_or : List StatusCode → List StatusCode
  codes_or [] = default_codes
  codes_or (c ∷ cs) = c ∷ cs

  pub get_grpc_request_options : Environment → RequestOptions
  get_grpc_request_options env = record {
    timeout = positive_or (pos 15000) env.request_timeout;
    retry_options = record {
      retry = value env.enabled;
      timeout = positive_if_set (pos 120000) env.retry_timeout;
      delay = positive_or (pos 5000) env.delay;
      retry_max_count = positive_if_set (pos 5) env.max_count;
      status_codes = value (codes_or env.status_codes);
    };
  }

  pub get_default_request_options : Environment → RequestOptions → RequestOptions
  unfolding get_grpc_request_options
  get_default_request_options env own = spread_request (get_grpc_request_options env) own

  -- The options of one call of `request`.
  pub request_options : Environment → RequestOptions → RequestOptions → ResolvedOptions
  unfolding merge_request_options get_default_request_options
  request_options env own options =
      merge_request_options (get_default_request_options env own) options
