-- ===== src/Logger/OnMethod/Entries.antt =====
-- What the caller of a logged method sees, and what is logged.
use demo_hybrid_microservice.Common.{
  ℕ, ◌≡◌, refl, ap, ◌∙◌, String, Bool, true, false, List, ◌++◌, append_assoc, Option, none, ok,
  error, arith,
}
use demo_hybrid_microservice.Common.Methods.{
  Response, returns, throws, promises, Outcome, resolves, rejects, seen, settlement_of,
}
use demo_hybrid_microservice.Logger.OnMethod.Asked.{asked, said-asked, is_finally}
use demo_hybrid_microservice.Logger.OnMethod.{
  Fields, LogEvent, LogEntry, LoggerParams, LoggerOption, OnMethod, function, unset, given,
  before_call, after_call, throw_call, finally_call, Logging, use_logger_params, emit_made,
  join_fields, wrapped_method, settle, respond, LogData, call_data, result_data, error_data,
  duration_data, default_params,
}

-- No option is a function that throws.
abbrev pub is_quiet : LoggerOption → Bool
is_quiet (function (error e)) = false
is_quiet _ = true

use_logger_params-ok :
    (o : LoggerOption) (d : LoggerParams) (b : Bool)
    → is_quiet o ≡ true
    → (p : Option LoggerParams) × (use_logger_params o d b ≡ ok p)
unfolding use_logger_params
use_logger_params-ok unset d b h = (_, refl)
use_logger_params-ok (given g) d b h = (_, refl)
use_logger_params-ok (function (ok g)) d b h = (_, refl)
use_logger_params-ok (function (error e)) d b h = ground (arith, h)

abbrev add : List LogEntry → Logging → Logging
add es s = record s { entries = s.entries ++ es }

emit_made-add :
    (name : String) (event : LogEvent) (o : LoggerOption) (fields : Fields) (d : LogData)
    (s : Logging)
    → is_quiet o ≡ true
    → s.is_subscribed ≡ true
    → emit_made name event (use_logger_params o (default_params fields d) (is_finally event)) s
      ≡ (none, add (asked name event fields d o) s)
emit_made-add name event o fields d s quiet on =
    let (p, e) = use_logger_params-ok o (default_params fields d) (is_finally event) quiet in
    rw (← said-asked name event fields d o, e, on) refl

assoc3 : (a b c d : List LogEntry) → a ++ b ++ c ++ d ≡ a ++ (b ++ c ++ d)
assoc3 a b c d = ap (λ x. x ++ d) (append_assoc a b c) ∙ append_assoc a (b ++ c) d

module _ (name : String) (default_fields : Option Fields) (merge : Fields → Fields → Fields)
    (m : OnMethod) where
  pub record NeverThrows : Type 0 where
    pub before : is_quiet m.before ≡ true
    pub after : (v : String) (took : ℕ) → is_quiet (m.after v took) ≡ true
    pub throw : (e : String) (took : ℕ) → is_quiet (m.throw e took) ≡ true
    pub finally : (took : ℕ) → is_quiet (m.finally took) ≡ true

  abbrev said_before : Fields → List LogEntry
  said_before fields = asked name before_call fields call_data m.before

  abbrev said_after : String → ℕ → Fields → List LogEntry
  said_after v took fields = asked name after_call fields (result_data took v) (m.after v took)

  abbrev said_throw : String → ℕ → Fields → List LogEntry
  said_throw e took fields = asked name throw_call fields (error_data took e) (m.throw e took)

  abbrev said_finally : ℕ → Fields → List LogEntry
  said_finally took fields = asked name finally_call fields (duration_data took) (m.finally took)

  abbrev pub response_entries : Response → ℕ → Fields → List LogEntry
  response_entries (returns v) took fields =
      said_before fields ++ said_finally took fields ++ said_after v took fields
  response_entries (throws e) took fields =
      said_before fields ++ said_throw e took fields ++ said_finally took fields
  response_entries promises took fields = said_before fields

  abbrev pub outcome_entries : Outcome → ℕ → Fields → List LogEntry
  outcome_entries (resolves v) took fields = said_after v took fields ++ said_finally took fields
  outcome_entries (rejects e) took fields = said_throw e took fields ++ said_finally took fields

  module _ (works : NeverThrows) where
    respond-entries :
        (response : Response) (took : ℕ) (fields : Fields) (s : Logging)
        → s.is_subscribed ≡ true
        → let r =
            respond name default_fields merge m response took fields (add (said_before fields) s) in
          (seen r.0 ≡ response) × (r.1.entries ≡ s.entries ++ response_entries response took fields)
    respond-entries (returns v) took fields s on =
        let s1 : Logging = add (said_before fields) s in
        let s2 : Logging = add (said_finally took fields) s1 in
        rw
          (
            emit_made-add name finally_call (m.finally took) fields (duration_data took) s1
                (works.finally took) on,
            emit_made-add name after_call (m.after v took) fields (result_data took v) s2
                (works.after v took) on,
          )
          (refl, assoc3 s.entries _ _ _)
    respond-entries (throws e) took fields s on =
        let s1 : Logging = add (said_before fields) s in
        let s2 : Logging = add (said_throw e took fields) s1 in
        rw
          (
            emit_made-add name throw_call (m.throw e took) fields (error_data took e) s1
                (works.throw e took) on,
            emit_made-add name finally_call (m.finally took) fields (duration_data took) s2
                (works.finally took) on,
          )
          (refl, assoc3 s.entries _ _ _)
    respond-entries promises took fields s on = (refl, refl)

    settle-entries :
        (outcome : Outcome) (took : ℕ) (fields : Fields) (s : Logging)
        → s.is_subscribed ≡ true
        → let r = settle name default_fields merge m outcome took fields s in
          (r.0 ≡ settlement_of outcome)
          × (r.1.entries ≡ s.entries ++ outcome_entries outcome took fields)
    unfolding settle
    settle-entries (resolves v) took fields s on =
        let s1 : Logging = add (said_after v took fields) s in
        rw
          (
            emit_made-add name after_call (m.after v took) fields (result_data took v) s
                (works.after v took) on,
            emit_made-add name finally_call (m.finally took) fields (duration_data took) s1
                (works.finally took) on,
          )
          (refl, append_assoc s.entries _ _)
    settle-entries (rejects e) took fields s on =
        let s1 : Logging = add (said_throw e took fields) s in
        rw
          (
            emit_made-add name throw_call (m.throw e took) fields (error_data took e) s
                (works.throw e took) on,
            emit_made-add name finally_call (m.finally took) fields (duration_data took) s1
                (works.finally took) on,
          )
          (refl, append_assoc s.entries _ _)

  -- If no option of `ElkLoggerOnMethod` is a function that throws, then the caller of a wrapped method
  -- sees what the method itself returns, throws or promises, and the promise settles as the method's
  -- does; entries are written before the call, then at its end and for its result, or for its error and
  -- at its end, and likewise, result first, when a promise settles. Each is as its option asks: none
  -- where it is false, or unset for the end of a call, and else one with the option's own fields, level,
  -- message and data (no fields or data if they are undefined), and for those that it leaves out the call's fields, the level and the message of
  -- the event, and the arguments, result, error or duration of the call. This is while the service is
  -- subscribed.
  pub wrapped_method-entries :
      (works : NeverThrows) (response : Response) (outcome : Outcome) (took later : ℕ)
      (fields : Fields) (s settles : Logging)
      → join_fields default_fields merge m.fields ≡ ok fields
      → s.is_subscribed ≡ true
      → settles.is_subscribed ≡ true
      → let (answer, s2) = wrapped_method name default_fields merge m response took s in
        let (settlement, s3) = settle name default_fields merge m outcome later fields settles in
        (seen answer ≡ response)
        × (s2.entries ≡ s.entries ++ response_entries response took fields)
        × (settlement ≡ settlement_of outcome)
        × (s3.entries ≡ settles.entries ++ outcome_entries outcome later fields)
  unfolding wrapped_method
  wrapped_method-entries works response outcome took later fields s settles joined on on2 =
      let (same, added) = respond-entries works response took fields s on in
      let (same2, added2) = settle-entries works outcome later fields settles on2 in
      rw (joined, emit_made-add name before_call m.before fields call_data s works.before on)
        (same, added, same2, added2)
