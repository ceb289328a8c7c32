-- ===== src/Context/Lifecycle.antt =====
-- The span of a block of code.
use demo_hybrid_microservice.Common.{
  ◌≡◌, refl, String, Bool, true, false, not, ◌&&◌, List, [], ◌∷◌, ◌++◌, if◌then◌else◌, count_by,
}
use demo_hybrid_microservice.Common.Methods.{
  Response, returns, throws, promises, Outcome, resolves, rejects, seen, settlement_of,
}
use demo_hybrid_microservice.Context.{
  SpanCall, set_ok, end_span, execute_and_lifecycle_span, settle_span,
}

abbrev pub is_end : SpanCall → Bool
is_end end_span = true
is_end _ = false

-- The last status that a span is given, if it is given one: true for success.
abbrev pub is_ok_status : SpanCall → Bool
is_ok_status set_ok = true
is_ok_status _ = false

-- How a block ends: by itself, or, if it is a promise, with the promise.
abbrev pub whole_calls : (String → Bool) → Response → Outcome → List SpanCall
whole_calls has_message response outcome =
    (execute_and_lifecycle_span has_message response).0 ++ (elim response as (λ _. List SpanCall) [
      | promises ↦ (settle_span has_message outcome).0
      | _ ↦ []
    ])

-- Nothing is called on the span after its end.
abbrev pub ends_last : List SpanCall → Bool
ends_last [] = false
ends_last (c ∷ []) = is_end c
ends_last (c ∷ d ∷ cs) = not (is_end c) && ends_last (d ∷ cs)

-- What is called on the span before the block's caller goes on: all, or, if it has a promise, nothing.
abbrev pub IsTimely : Response → List SpanCall → Type 0
IsTimely promises calls = calls ≡ []
IsTimely (returns v) calls = ends_last calls ≡ true
IsTimely (throws e) calls = ends_last calls ≡ true

abbrev pub succeeds : Response → Outcome → Bool
succeeds (returns v) outcome = true
succeeds (throws e) outcome = false
succeeds promises (resolves v) = true
succeeds promises (rejects e) = false

-- If every error is a value with properties, then a block under `wrapWithTelemetry` gives its caller what
-- it gives by itself, and its promise settles as it does; nothing is called on its span before that
-- promise settles, or, without a promise, the span is ended before the caller goes on; the end comes
-- once and last, and the span is told of success exactly if the block succeeds.
pub whole_calls-end :
    (has_message : String → Bool) (response : Response) (outcome : Outcome)
    → ((e : String) → has_message e ≡ true)
    → (seen (execute_and_lifecycle_span has_message response).1 ≡ response)
      × ((settle_span has_message outcome).1 ≡ settlement_of outcome)
      × IsTimely response (execute_and_lifecycle_span has_message response).0
      × (count_by is_end (whole_calls has_message response outcome) ≡ 1)
      × (ends_last (whole_calls has_message response outcome) ≡ true)
      × (count_by is_ok_status (whole_calls has_message response outcome)
          ≡ (if succeeds response outcome then 1 else 0))
unfolding execute_and_lifecycle_span settle_span
whole_calls-end has_message (returns v) (resolves w) h = (refl, refl, refl, refl, refl, refl)
whole_calls-end has_message (returns v) (rejects f) h =
    (refl, rw (h f) refl, refl, refl, refl, refl)
whole_calls-end has_message (throws e) (resolves w) h =
    (rw (h e) refl, refl, rw (h e) refl, rw (h e) refl, rw (h e) refl, rw (h e) refl)
whole_calls-end has_message (throws e) (rejects f) h =
    (rw (h e) refl, rw (h f) refl, rw (h e) refl, rw (h e) refl, rw (h e) refl, rw (h e) refl)
whole_calls-end has_message promises (resolves w) h = (refl, refl, refl, refl, refl, refl)
whole_calls-end has_message promises (rejects f) h =
    (refl, rw (h f) refl, refl, rw (h f) refl, rw (h f) refl, rw (h f) refl)
