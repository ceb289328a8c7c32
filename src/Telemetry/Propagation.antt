-- ===== src/Telemetry/Propagation.antt =====
-- `Propagator.extract` and `inject` of src/modules/opentelemetry/propagators/propagator.ts. How OpenTelemetry
-- reads and sets a property of a carrier is a parameter.
use Prim.Native.Char.{Char, code}
use Prim.Native.String.{◌++◌ as concat}
use demo_hybrid_microservice.Common.{
  ℕ, zero, suc, ◌-◌, String, Bool, true, false, ◌||◌, ◌&&◌, Option, none, some, if◌then◌else◌, ◌==◌,
  leb, str_eq, not,
}
pub mod Continues

-- `SpanContext`, with the flag of a sampled trace left out.
pub record SpanContext : Type 0 where
  pub trace_id : String
  pub span_id : String
  pub is_remote : Bool

-- The characters of `[0-9a-f]`, and `[A-F]` in lower case.
abbrev pub is_lower_hex : Char → Bool
is_lower_hex c = leb 48 (code c) && leb (code c) 57 || leb 97 (code c) && leb (code c) 102

abbrev pub lower_case : ℕ → String
lower_case n =
    if n == 65
    then "a"
    else if n == 66
    then "b"
    else if n == 67
    then "c"
    else if n == 68
    then "d"
    else if n == 69
    then "e"
    else if n == 70
    then "f"
    else ""

-- `.replace(/[^0-9a-fA-F]/g, '').toLowerCase()`
unfoldable pub hex_digits : String → String
hex_digits String.[] = ""
hex_digits (String.◌∷◌ c s) =
    let rest = hex_digits s in
    if is_lower_hex c then String.◌∷◌ c rest else concat (lower_case (code c)) rest

abbrev pub text_length : String → ℕ
text_length String.[] = 0
text_length (String.◌∷◌ c s) = suc (text_length s)

abbrev pub zeros : ℕ → String → String
zeros zero s = s
zeros (suc n) s = concat "0" (zeros n s)

-- `.padStart(width, '0')`
abbrev pub pad_start : ℕ → String → String
pad_start width s = zeros (width - text_length s) s

abbrev pub format_id : ℕ → String → String
format_id width s = pad_start width (hex_digits s)

-- `!currentActiveSpanContext || currentActiveSpanContext.traceId !== formattedTraceId`
abbrev pub is_remote_to : Option SpanContext → String → Bool
is_remote_to none trace_id = true
is_remote_to (some active) trace_id = not (str_eq active.trace_id trace_id)

-- The context's span after `extract`, by the headers read.
abbrev pub extracted : Option String → Option String → Option SpanContext → Option SpanContext
extracted none span_id active = active
extracted (some t) none active = active
extracted (some t) (some s) active =
    if str_eq t "" || str_eq s ""
    then active
    else some (record {
      trace_id = format_id 32 t;
      span_id = format_id 16 s;
      is_remote = is_remote_to active (format_id 32 t);
    })

module _ (Carrier : Type 0) (get : Carrier → String → Option String)
    (set : Carrier → String → String → Carrier) where
  unfoldable pub extract : Option SpanContext → Carrier → Option SpanContext
  extract active carrier = extracted (get carrier "x-trace-id") (get carrier "x-span-id") active

  -- `!value` of a property
  abbrev pub is_unset : Option String → Bool
  is_unset none = true
  is_unset (some s) = str_eq s ""

  unfoldable pub inject : Option SpanContext → Carrier → Carrier
  inject none carrier = carrier
  inject (some c) carrier =
      let traced =
        if is_unset (get carrier "x-trace-id")
        then set carrier "x-trace-id" c.trace_id
        else carrier in
      let spanned =
        if is_unset (get carrier "x-span-id") then set traced "x-span-id" c.span_id else traced in
      if str_eq c.trace_id "" then carrier else spanned
