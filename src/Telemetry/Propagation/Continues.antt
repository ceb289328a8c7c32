-- ===== src/Telemetry/Propagation/Continues.antt =====
-- A trace goes on in the process that receives the headers which another one has sent.
use demo_hybrid_microservice.Common.{
  ℕ, zero, suc, ◌-◌, ◌≡◌, refl, ap, ◌∙◌, String, Bool, true, false, ◌&&◌, Option, none, some, ◌==◌,
  str_eq, eq_iff, arith, Bool-cases, inl, inr,
}
use demo_hybrid_microservice.Headers.{Header, Headers, text, lookup}
use demo_hybrid_microservice.Headers.Builders.{
  KafkaAsyncContext, http_build, kafka_build, http_name_as_header_name, http_keys, general_value,
  kafka_name_as_header_name, kafka_value, kafka_keys, value_to_send,
}
use demo_hybrid_microservice.Headers.Lookup.{or_header, unless_empty_text}
use demo_hybrid_microservice.Headers.Sent.{lookup-sent}
use demo_hybrid_microservice.Telemetry.Propagation.{
  SpanContext, is_lower_hex, hex_digits, text_length, zeros, format_id, is_remote_to, extracted,
  extract,
}

-- An identifier as OpenTelemetry makes them: so many digits in lower case.
abbrev pub all_lower_hex : String → Bool
all_lower_hex String.[] = true
all_lower_hex (String.◌∷◌ c s) = is_lower_hex c && all_lower_hex s

abbrev pub is_id : ℕ → String → Bool
is_id width s = all_lower_hex s && text_length s == width

hex_digits-all_lower_hex : (s : String) → all_lower_hex s ≡ true → hex_digits s ≡ s
unfolding hex_digits
hex_digits-all_lower_hex String.[] h = refl
hex_digits-all_lower_hex (String.◌∷◌ c s) h =
    let rest = ap (String.◌∷◌ c) (hex_digits-all_lower_hex s (ground (arith, h))) in
    ground (arith, h, rest)

format_id-is_id : (width : ℕ) (s : String) → is_id width s ≡ true → format_id width s ≡ s
format_id-is_id width s h =
    let digits = hex_digits-all_lower_hex s (ground (arith, h)) in
    rw digits (filled (width - text_length s) s (ground (arith, h)))
  where
    filled : (n : ℕ) (s : String) → n ≡ 0 → zeros n s ≡ s
    filled zero s h = refl
    filled (suc n) s h = ground (arith, h)

is_id-nonempty : (width : ℕ) (s : String) → is_id (suc width) s ≡ true → str_eq s "" ≡ false
is_id-nonempty width s h = elim (Bool-cases (str_eq s "")) [
  | inl empty ↦ ground (arith, h, ap text_length ((eq_iff s "").0 empty))
  | inr full ↦ full
]

-- The header of an identifier that a builder sends.
sent_id :
    (width : ℕ) (s : String) (v : Option String) (h g : Option Header)
    → is_id (suc width) s ≡ true
    → v ≡ some s
    → or_header (or_header (unless_empty_text (value_to_send v h)) none) g ≡ some (text s)
sent_id width s none h g i same = ground (arith, same)
sent_id width s (some r) h g i same = ground (arith, same, is_id-nonempty width s i)

extracted-is_id :
    (t s : String) (active : Option SpanContext)
    → is_id 32 t ≡ true
    → is_id 16 s ≡ true
    → extracted (some t) (some s) active
      ≡ some (record { trace_id = t; span_id = s; is_remote = is_remote_to active t })
extracted-is_id t s active it is =
    rw
      (
        is_id-nonempty 31 t it,
        is_id-nonempty 15 s is,
        format_id-is_id 32 t it,
        format_id-is_id 16 s is,
      )
      refl

module _ (get : Headers → String → Option String) (set : Headers → String → String → Headers)
    (reads : (headers : Headers) (name s : String)
      → lookup name headers ≡ some (text s)
      → get headers name ≡ some s) where
  extract_sent :
      (headers : Headers) (t s : String) (active : Option SpanContext)
      → lookup "x-trace-id" headers ≡ some (text t)
      → lookup "x-span-id" headers ≡ some (text s)
      → is_id 32 t ≡ true
      → is_id 16 s ≡ true
      → extract Headers get set active headers
        ≡ some (record { trace_id = t; span_id = s; is_remote = is_remote_to active t })
  unfolding extract
  extract_sent headers t s active ht hs it is =
      rw (reads headers "x-trace-id" t ht, reads headers "x-span-id" s hs)
        (extracted-is_id t s active it is)

  -- If OpenTelemetry reads a header that is a string as that string, and the trace and the span of a
  -- context are 32 and 16 hexadecimal digits in lower case, then of the headers that HttpHeadersBuilder
  -- and KafkaHeadersBuilder make of the context, whatever headers are given, the propagator extracts that trace and span,
  -- whatever was active.
  pub extract-build :
      (Number : Type 0) (to_string : Number → String) (c : KafkaAsyncContext Number)
      (given : Headers) (t s : String) (active : Option SpanContext)
      → c.general.trace_id ≡ some t
      → c.general.span_id ≡ some s
      → is_id 32 t ≡ true
      → is_id 16 s ≡ true
      → let found : Option SpanContext =
          some (record { trace_id = t; span_id = s; is_remote = is_remote_to active t }) in
        (extract Headers get set active (http_build c.general given) ≡ found)
        × (extract Headers get set active (kafka_build Number to_string c given) ≡ found)
  unfolding http_build kafka_build
  extract-build Number to_string c given t s active ct cs it is =
      let http = lookup-sent http_name_as_header_name (general_value c.general) http_keys given in
      let kafka =
        lookup-sent kafka_name_as_header_name (kafka_value Number to_string c)
          (kafka_keys Number to_string) given in
      (
        extract_sent _ t s active (http "x-trace-id" ∙ sent_id 31 t c.general.trace_id _ _ it ct)
            (http "x-span-id" ∙ sent_id 15 s c.general.span_id _ _ is cs) it is,
        extract_sent _ t s active (kafka "x-trace-id" ∙ sent_id 31 t c.general.trace_id _ _ it ct)
            (kafka "x-span-id" ∙ sent_id 15 s c.general.span_id _ _ is cs) it is,
      )
