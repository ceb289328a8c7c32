-- ===== src/Kafka/Messages/Calls.antt =====
-- What subscribers are given of the messages, and what the metrics count.
use demo_hybrid_microservice.Common.{
  ℕ, ◌≡◌, refl, String, Bool, true, false, ◌||◌, List, [], ◌∷◌, ◌++◌, Option, none, some, Result,
  ok, error, any_of, if◌then◌else◌, ap, sym, ◌∙◌, append_assoc, append-nil,
}
use demo_hybrid_microservice.Kafka.Handlers.{ConsumerMode}
use demo_hybrid_microservice.Kafka.Messages.{
  AsyncContext, Packet, Message, Behaviour, throws, returns, stream_completes, stream_errors,
  Handler, Effect, count_handled, count_failed, set_context, call_handler, Attempt, before,
  run_handler, catch, one_message, handle_batch_one_message, and_then, all_messages, add_data,
  targets,
}

abbrev call_of : Effect → List (List ℕ)
call_of (call_handler payload) = payload ∷ []
call_of _ = []

abbrev handled_of : Effect → List ℕ
handled_of (count_handled topic mode value) = value ∷ []
handled_of _ = []

abbrev failed_of : Effect → List ℕ
failed_of (count_failed topic mode e value) = value ∷ []
failed_of _ = []

-- The data of the calls of subscribers, and the values added to the two metrics.
abbrev pub calls : List Effect → List (List ℕ)
calls [] = []
calls (e ∷ es) = call_of e ++ calls es

abbrev pub handled_values : List Effect → List ℕ
handled_values [] = []
handled_values (e ∷ es) = handled_of e ++ handled_values es

abbrev pub failed_values : List Effect → List ℕ
failed_values [] = []
failed_values (e ∷ es) = failed_of e ++ failed_values es

abbrev pub is_error : Result AsyncContext → Result Packet → Bool
is_error (error e) p = true
is_error (ok c) (error e) = true
is_error (ok c) (ok p) = false

-- The adapter or the deserializer throws.
abbrev pub is_broken : Message → Bool
is_broken m = is_error m.adapted m.deserialized

abbrev pub packet_data : Result Packet → List ℕ
packet_data (error e) = []
packet_data (ok p) = add_data p.payload []

abbrev pub all_data : List Message → List ℕ
all_data [] = []
all_data (m ∷ ms) = packet_data m.deserialized ++ all_data ms

abbrev pub breaks : Behaviour → Bool
breaks (throws e) = true
breaks returns = false
breaks stream_completes = false
breaks (stream_errors e) = true

-- The calls that the data should lead to, and whether the subscriber then fails.
abbrev pub expected_calls : Option Handler → List ℕ → List (List ℕ)
expected_calls h [] = []
expected_calls none (d ∷ ds) = []
expected_calls (some h) (d ∷ ds) = (d ∷ ds) ∷ []

abbrev pub expected_failure : Option Handler → List ℕ → Bool
expected_failure h [] = false
expected_failure none (d ∷ ds) = false
expected_failure (some h) (d ∷ ds) = breaks (h.behaviour (d ∷ ds))

-- The pattern whose subscriber a single message goes to; `topic` where there is no packet.
abbrev pub packet_pattern : String → Result Packet → String
packet_pattern topic (error e) = topic
packet_pattern topic (ok p) = p.pattern

abbrev pub is_thrown : Option String → Bool
is_thrown none = false
is_thrown (some e) = true

-- What an attempt did, and whether it threw, is what it should be.
pub record Does (a : Attempt) (called : List (List ℕ)) (fails : Bool) : Type 0 where
  pub made : calls a.0 ≡ called
  pub handled : handled_values a.0 ≡ []
  pub failed : failed_values a.0 ≡ []
  pub thrown : is_thrown a.1 ≡ fails

-- What an attempt logs beside its calls.
abbrev is_silent : Effect → Bool
is_silent (count_handled topic mode value) = false
is_silent (count_failed topic mode e value) = false
is_silent (call_handler payload) = false
is_silent _ = true

calls-append : (es fs : List Effect) → calls (es ++ fs) ≡ calls es ++ calls fs
calls-append [] fs = refl
calls-append (e ∷ es) fs =
    ap (λ l. call_of e ++ l) (calls-append es fs) ∙ sym (append_assoc (call_of e) _ _)

handled_values-append :
    (es fs : List Effect) → handled_values (es ++ fs) ≡ handled_values es ++ handled_values fs
handled_values-append [] fs = refl
handled_values-append (e ∷ es) fs =
    ap (λ l. handled_of e ++ l) (handled_values-append es fs)
    ∙ sym (append_assoc (handled_of e) _ _)

failed_values-append :
    (es fs : List Effect) → failed_values (es ++ fs) ≡ failed_values es ++ failed_values fs
failed_values-append [] fs = refl
failed_values-append (e ∷ es) fs =
    ap (λ l. failed_of e ++ l) (failed_values-append es fs) ∙ sym (append_assoc (failed_of e) _ _)

pub call-Does :
    (payload : List ℕ) (b : Behaviour)
    → Does (before (call_handler payload) (run_handler b)) (payload ∷ []) (breaks b)
unfolding before run_handler
call-Does payload (throws e) = record { made = refl; handled = refl; failed = refl; thrown = refl }
call-Does payload returns = record { made = refl; handled = refl; failed = refl; thrown = refl }
call-Does payload stream_completes = record {
  made = refl;
  handled = refl;
  failed = refl;
  thrown = refl;
}
call-Does payload (stream_errors e) = record {
  made = refl;
  handled = refl;
  failed = refl;
  thrown = refl;
}

pub context-Does :
    (c : AsyncContext) (a : Attempt) (called : List (List ℕ)) (fails : Bool)
    → Does a called fails
    → Does (before (set_context c) a) called fails
unfolding before
context-Does c (es, thrown) called fails d = record {
  made = d.made;
  handled = d.handled;
  failed = d.failed;
  thrown = d.thrown;
}

-- The effects of the whole method, given those of its `try` block.
pub record Reports (es : List Effect) (called : List (List ℕ)) (fails : Bool) (value : ℕ)
    : Type 0 where
  pub made : calls es ≡ called
  pub handled : handled_values es ≡ []
  pub failed : failed_values es ≡ (if fails then value ∷ [] else [])

pub catch-Reports :
    (topic : String) (mode : ConsumerMode) (value : ℕ) (a : Attempt) (called : List (List ℕ))
    (fails : Bool)
    → Does a called fails
    → Reports (catch topic mode value a) called fails value
unfolding catch
catch-Reports topic mode value (es, none) called fails d = record {
  made = d.made;
  handled = d.handled;
  failed = rw (sym d.thrown) d.failed;
}
catch-Reports topic mode value (es, some e) called fails d = record {
  made = calls-append es _ ∙ append-nil (calls es) ∙ d.made;
  handled = handled_values-append es _ ∙ append-nil (handled_values es) ∙ d.handled;
  failed = failed_values-append es _ ∙ rw (d.failed, sym d.thrown) refl;
}

-- What a packet was made of: whether it is an error, its data and its pattern.
unfoldable pub OneGathers :
    Result (AsyncContext × Packet) → Bool → List ℕ → (topic pattern : String) → Type 0
OneGathers (error e) broken payload topic pattern = broken ≡ true
OneGathers (ok (c, p)) broken payload topic pattern =
    (broken ≡ false) × (add_data p.payload [] ≡ payload) × (p.pattern ≡ pattern)

pub one_message-OneGathers :
    (topic : String) (h : Option Handler) (c : Result AsyncContext) (p : Result Packet)
    → OneGathers (one_message h c p) (is_error c p) (packet_data p) topic (packet_pattern topic p)
unfolding one_message OneGathers
one_message-OneGathers topic h (error e) p = refl
one_message-OneGathers topic h (ok c) (error e) = refl
one_message-OneGathers topic h (ok c) (ok p) = (refl, refl, refl)

unfoldable pub Gathers : Result (List (AsyncContext × Packet)) → Bool → List ℕ → Type 0
Gathers (error e) broken payload = broken ≡ true
Gathers (ok ps) broken payload = (broken ≡ false) × (targets ps ≡ payload)

add_data-append : (d : Option ℕ) (ds : List ℕ) → add_data d ds ≡ add_data d [] ++ ds
add_data-append none ds = refl
add_data-append (some d) ds = refl

and_then-Gathers :
    (r : Result (AsyncContext × Packet)) (rest : Result (List (AsyncContext × Packet)))
    (b b' : Bool) (d d' : List ℕ) (topic pattern : String)
    → OneGathers r b d topic pattern
    → Gathers rest b' d'
    → Gathers (and_then r rest) (b || b') (d ++ d')
unfolding and_then OneGathers Gathers
and_then-Gathers (error e) rest b b' d d' topic pattern one g = rw one refl
and_then-Gathers (ok (c, p)) (error e) b b' d d' topic pattern one g = rw (one.0, g) refl
and_then-Gathers (ok (c, p)) (ok ps) b b' d d' topic pattern one g =
    (rw (one.0, g.0) refl, add_data-append p.payload (targets ps) ∙ rw (one.1, g.1) refl)

pub all_messages-Gathers :
    (h : Option Handler) (ms : List Message)
    → Gathers (all_messages h ms) (any_of is_broken ms) (all_data ms)
unfolding all_messages Gathers handle_batch_one_message
all_messages-Gathers h [] = (refl, refl)
all_messages-Gathers h (m ∷ ms) =
    and_then-Gathers (handle_batch_one_message h m) (all_messages h ms) _ _ _ _ "" _
      (one_message-OneGathers "" h m.adapted m.deserialized) (all_messages-Gathers h ms)
