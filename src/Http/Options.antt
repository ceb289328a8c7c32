-- ===== src/Http/Options.antt =====
-- The retry options of a request: `mergeRequestOptions` and `canRetry` of
-- src/modules/http/http-client/helpers/http-client.helper.ts, `getHttpRequestOptions` of
-- services/http-client.config.service.ts and `getDefaultRequestOptions` of services/http-client.service.ts.
-- The options of the headers' builder are left out.
pub mod Bounds
use demo_hybrid_microservice.Common.{
  ℕ, zero, suc, String, Bool, true, false, ◌&&◌, List, [], ◌∷◌, Option, none, some, ℤ, pos, negsuc,
  if◌then◌else◌, ◌==◌, str_eq, any_of, Property, missing, undefined, value, spread,
}

-- `string | number`.
pub data StatusCode : Type 0 where
  number : ℕ → StatusCode
  name : String → StatusCode

abbrev pub same_code : StatusCode → StatusCode → Bool
same_code (number n) (number m) = n == m
same_code (name s) (name t) = str_eq s t
same_code (number n) (name t) = false
same_code (name s) (number m) = false

-- `retryOptions` of `IHttpRequestOptions`. Where it is undefined, as where the options are, all of its
-- properties are missing, since nothing is spread.
pub record RetryOptions : Type 0 where
  pub retry : Property Bool
  pub timeout : Property ℤ
  pub delay : Property ℤ
  pub retry_max_count : Property ℤ
  pub status_codes : Property (List StatusCode)

abbrev pub no_retry_options : RetryOptions
no_retry_options = record {
  retry = missing;
  timeout = missing;
  delay = missing;
  retry_max_count = missing;
  status_codes = missing;
}

-- `IHttpResolvedRequestOptions`; `none` is `undefined`.
pub record ResolvedOptions : Type 0 where
  pub retry : Option Bool
  pub timeout : ℕ
  pub delay : ℤ
  pub retry_max_count : ℕ
  pub status_codes : Option (List StatusCode)

abbrev pub spread_options : RetryOptions → RetryOptions → RetryOptions
spread_options a b = record {
  retry = spread a.retry b.retry;
  timeout = spread a.timeout b.timeout;
  delay = spread a.delay b.delay;
  retry_max_count = spread a.retry_max_count b.retry_max_count;
  status_codes = spread a.status_codes b.status_codes;
}

-- The value read of a property.
abbrev pub read : {A : Type 0} → Property A → Option A
read missing = none
read undefined = none
read (value a) = some a

-- `if (!delay) { delay = default; }`.
resolve_delay : Option ℤ → ℤ
resolve_delay none = pos 5000
resolve_delay (some (pos zero)) = pos 5000
resolve_delay (some (pos (suc n))) = pos (suc n)
resolve_delay (some (negsuc n)) = negsuc n

-- `if (n === undefined || n < 0) { n = 0; }`.
resolve_count : Option ℤ → ℕ
resolve_count none = 0
resolve_count (some (pos n)) = n
resolve_count (some (negsuc n)) = 0

-- `if (timeout == 0 && retryMaxCount === 0) { retry = false; }`.
resolve_retry : ℕ → ℕ → Option Bool → Option Bool
resolve_retry timeout count retry = if timeout == 0 && count == 0 then some false else retry

-- `length` is tested for truth.
abbrev listed_code : List StatusCode → StatusCode → Bool
listed_code codes code = any_of (same_code code) codes

unfoldable pub can_retry : Option StatusCode → Option (List StatusCode) → Bool
can_retry none codes = false
can_retry (some code) none = false
can_retry (some code) (some codes) = listed_code codes code

-- What the environment gives: `none` is the `false` of `parseInt`, and the codes are read as numbers
-- where `parseInt` reads one.
pub record Environment : Type 0 where
  pub enabled : Bool
  pub timeout : Option ℤ
  pub delay : Option ℤ
  pub max_count : Option ℤ
  pub status_codes : List StatusCode

-- `n !== false && n < 1 ? default : n`, with `false` as `undefined`.
at_least_one : ℤ → Option ℤ → Property ℤ
at_least_one d none = undefined
at_least_one d (some (pos zero)) = value d
at_least_one d (some (pos (suc n))) = value (pos (suc n))
at_least_one d (some (negsuc n)) = value d

-- `n === false || n < 1 ? default : n`.
delay_or : ℤ → Option ℤ → Property ℤ
delay_or d none = value d
delay_or d (some (pos zero)) = value d
delay_or d (some (pos (suc n))) = value (pos (suc n))
delay_or d (some (negsuc n)) = value d

-- `default_codes` are the status codes of HTTP_CLIENT_DEFAULT_OPTIONS, most of them axios's.
module _ (default_codes : List StatusCode) where
  abbrev pub default_retry_options : RetryOptions
  default_retry_options = record {
    retry = missing;
    timeout = value (pos 120000);
    delay = value (pos 5000);
    retry_max_count = value (pos 5);
    status_codes = value default_codes;
  }

  pub merge_request_options : RetryOptions → RetryOptions → ResolvedOptions
  unfolding resolve_delay resolve_count resolve_retry
  merge_request_options global options =
      let merged = spread_options (spread_options default_retry_options global) options in
      let timeout = resolve_count (read merged.timeout) in
      let count = resolve_count (read merged.retry_max_count) in
      record {
        retry = resolve_retry timeout count (read merged.retry);
        timeout = timeout;
        delay = resolve_delay (read merged.delay);
        retry_max_count = count;
        status_codes = read merged.status_codes;
      }

  codes_or : List StatusCode → List StatusCode
  codes_or [] = default_codes
  codes_or (c ∷ cs) = c ∷ cs

  pub get_http_request_options : Environment → RetryOptions
  unfolding at_least_one delay_or codes_or
  get_http_request_options env = record {
    retry = value env.enabled;
    timeout = at_least_one (pos 120000) env.timeout;
    delay = delay_or (pos 5000) env.delay;
    retry_max_count = at_least_one (pos 5) env.max_count;
    status_codes = value (codes_or env.status_codes);
  }

  -- `own` are the options that the module was given.
  pub get_default_request_options : Environment → RetryOptions → RetryOptions
  unfolding get_http_request_options
  get_default_request_options env own = spread_options (get_http_request_options env) own

  -- The options of one call of `request`.
  pub request_options : Environment → RetryOptions → RetryOptions → ResolvedOptions
  unfolding get_default_request_options
  request_options env own options =
      merge_request_options (get_default_request_options env own) options
