-- ===== src/Prometheus/OnMethod/Transparent.antt =====
-- What a caller of a wrapped method sees, and which events are emitted.
use demo_hybrid_microservice.Common.{
  ℕ, ◌≡◌, refl, sym, subst, ◌∙◌, ap, String, Bool, true, false, List, [], ◌∷◌, ◌++◌, append_assoc,
  append-nil, Option, none, some, Result, ok,
}
use demo_hybrid_microservice.Prometheus.Config.{Labels, EventConfig, MetricConfig, build_labels}
use demo_hybrid_microservice.Prometheus.Events.{Event, EventArgs, ManagerCall, Service}
use demo_hybrid_microservice.Prometheus.Events.Tickets.{event, buffer-emit}
use demo_hybrid_microservice.Common.Methods.{
  Response, returns, throws, promises, Outcome, resolves, rejects, Answer, resolved, seen,
  settlement_of,
}
use demo_hybrid_microservice.Prometheus.OnMethod.{
  OnMethod, Call, ends_of, before_config, after_config, throw_config, finally_config, emit_built,
  after_call, throw_call, finally_call, failed, returned_after, respond, wrapped_method, resolve,
  settle,
}

pub data Stage : Type 0 where
  before finally : Stage
  after throw : String → Stage

abbrev clear_stage : Bool → Stage
clear_stage true = finally
clear_stage false = before

-- The event's stage, by the arguments that only that stage has.
abbrev result_stage : Option String → Bool → Stage
result_stage (some v) clear = after v
result_stage none clear = clear_stage clear

abbrev args_stage : Option String → Option String → Bool → Stage
args_stage (some e) result clear = throw e
args_stage none result clear = result_stage result clear

abbrev pub stages : List Event → List (ℕ × Stage)
stages [] = []
stages (e ∷ es) = (e.ticket, args_stage e.args.error e.args.result e.clear) ∷ stages es

stages-append : (es fs : List Event) → stages (es ++ fs) ≡ stages es ++ stages fs
stages-append [] fs = refl
stages-append (e ∷ es) fs =
    ap (λ r. (e.ticket, args_stage e.args.error e.args.result e.clear) ∷ r) (stages-append es fs)

abbrev pub history : Service → List (ℕ × Stage)
history s = elim s.buffer [ none ↦ [] | some es ↦ stages es ]

abbrev pub response_stages : ℕ → Response → List (ℕ × Stage)
response_stages t (returns v) = (t, before) ∷ (t, finally) ∷ (t, after v) ∷ []
response_stages t (throws e) = (t, before) ∷ (t, throw e) ∷ (t, finally) ∷ []
response_stages t promises = (t, before) ∷ []

abbrev pub outcome_stages : ℕ → Outcome → List (ℕ × Stage)
outcome_stages t (resolves v) = (t, after v) ∷ (t, finally) ∷ []
outcome_stages t (rejects e) = (t, throw e) ∷ (t, finally) ∷ []

module _ (refuses : ManagerCall → Option String) (metrics : MetricConfig) (m : OnMethod) where
  abbrev Made : Result EventConfig → Type 0
  Made r = (c : EventConfig) × (r ≡ ok c)

  -- Neither the functions of the options throw nor what makes configurations of what they give.
  pub record NeverThrows : Type 0 where
    pub labels : (base : Option Labels) × (m.labels metrics.labels ≡ ok base)
    pub before : (l : Option Labels) → Made (before_config refuses metrics m l)
    pub after :
        (v : String) (took : ℕ) (l : Option Labels) → Made (after_config refuses metrics m v took l)
    pub throw :
        (e : String) (took : ℕ) (l : Option Labels) → Made (throw_config refuses metrics m e took l)
    pub finally : (took : ℕ) (c : Call) → Made (finally_config refuses metrics m took c)

  -- One more event was emitted and nothing thrown.
  abbrev Emitted : List (ℕ × Stage) → ℕ × Stage → Option String × Service → Type 0
  Emitted old stage r =
      (r.0 ≡ none) × ((fs : List Event) × (r.1.buffer ≡ some fs) × (stages fs ≡ old ++ stage ∷ []))

  emit_built-Emitted :
      (t : ℕ) (args : EventArgs) (clear : Bool) (r : Result EventConfig) (s : Service)
      (es : List Event)
      → Made r
      → s.buffer ≡ some es
      → Emitted
          (stages es)
          (t, args_stage args.error args.result clear)
          (emit_built refuses metrics m t args clear r s)
  emit_built-Emitted t args clear r s es (c, made) h = rw made (
    refl,
    (
      es ++ event refuses t args clear c ∷ [],
      buffer-emit refuses t args clear c s es h,
      stages-append es _,
    ),
  )

  -- What a part of a call leaves: its events after the old ones.
  abbrev Adds : List (ℕ × Stage) → List (ℕ × Stage) → Service → Type 0
  Adds old new s = (fs : List Event) × (s.buffer ≡ some fs) × (stages fs ≡ old ++ new)

  next :
      (old new : List (ℕ × Stage)) (stage : ℕ × Stage) (s : Service) (r : Option String × Service)
      → ((es : List Event) → s.buffer ≡ some es → Emitted (stages es) stage r)
      → Adds old new s
      → (r.0 ≡ none) × Adds old (new ++ stage ∷ []) r.1
  next old new stage s r emits (es, h, same) =
      let (quiet, (fs, h2, same2)) = emits es h in
      (quiet, (fs, h2, same2 ∙ ap (λ x. x ++ stage ∷ []) same ∙ append_assoc old new (stage ∷ [])))

  quiet_pair : (r : Option String × Service) → r.0 ≡ none → r ≡ (none, r.1)
  quiet_pair r quiet = ap (λ o. (o, r.1)) quiet

  module _ (works : NeverThrows) where
    after_call-Adds :
        (old new : List (ℕ × Stage)) (v : String) (took : ℕ) (c : Call) (s : Service)
        → Adds old new s
        → let r = after_call refuses metrics m v took c s in
          (r.0 ≡ none) × Adds old (new ++ (c.ticket, after v) ∷ []) r.1
    after_call-Adds old new v took c s =
        next old new (c.ticket, after v) s (after_call refuses metrics m v took c s)
          (λ es h. emit_built-Emitted c.ticket _ false _ s es (works.after v took c.labels) h)

    throw_call-Adds :
        (old new : List (ℕ × Stage)) (e : String) (took : ℕ) (c : Call) (s : Service)
        → Adds old new s
        → let r = throw_call refuses metrics m e took c s in
          (r.0 ≡ none) × Adds old (new ++ (c.ticket, throw e) ∷ []) r.1
    throw_call-Adds old new e took c s =
        next old new (c.ticket, throw e) s (throw_call refuses metrics m e took c s)
          (λ es h. emit_built-Emitted c.ticket _ false _ s es (works.throw e took c.labels) h)

    finally_call-Adds :
        (old new : List (ℕ × Stage)) (took : ℕ) (c : Call) (s : Service)
        → Adds old new s
        → let r = finally_call refuses metrics m took c s in
          (r.0 ≡ none) × Adds old (new ++ (c.ticket, finally) ∷ []) r.1
    finally_call-Adds old new took c s =
        next old new (c.ticket, finally) s (finally_call refuses metrics m took c s)
          (λ es h. emit_built-Emitted c.ticket _ true _ s es (works.finally took c) h)

    -- What the caller sees, with the stages that are added to the old ones.
    abbrev Shows : Response → List (ℕ × Stage) → List (ℕ × Stage) → Answer Call × Service → Type 0
    Shows response old new r = (seen r.0 ≡ response) × Adds old new r.1

    failed-Shows :
        (old new : List (ℕ × Stage)) (e : String) (took : ℕ) (c : Call) (s : Service)
        → Adds old new s
        → Shows
            (throws e)
            old
            ((new ++ (c.ticket, throw e) ∷ []) ++ (c.ticket, finally) ∷ [])
            (failed refuses metrics m e took c s)
    unfolding failed
    failed-Shows old new e took c s h =
        let (quiet, a) = throw_call-Adds old new e took c s h in
        let (quiet2, b) =
          finally_call-Adds old _ took c (throw_call refuses metrics m e took c s).1 a in
        (rw (quiet, quiet2) refl, b)

    respond-Shows :
        (old : List (ℕ × Stage)) (response : Response) (took : ℕ) (c : Call) (s : Service)
        → Adds old ((c.ticket, before) ∷ []) s
        → Shows response old
            (response_stages c.ticket response)
            (respond refuses metrics m response took c s)
    respond-Shows old (returns v) took c s h =
        let (quiet, a) = finally_call-Adds old ((c.ticket, before) ∷ []) took c s h in
        let (quiet2, b) =
          after_call-Adds old ((c.ticket, before) ∷ (c.ticket, finally) ∷ []) v took c
            (finally_call refuses metrics m took c s).1 a in
        subst
          (λ r.
            Shows (returns v) old (response_stages c.ticket (returns v))
              (returned_after refuses metrics m v took c r))
          (sym (quiet_pair (finally_call refuses metrics m took c s) quiet)) (rw quiet2 refl, b)
    respond-Shows old (throws e) took c s h =
        failed-Shows old ((c.ticket, before) ∷ []) e took c s h
    respond-Shows old promises took c s h = (refl, h)

    wrapped_method-Shows :
        (response : Response) (took t : ℕ) (s : Service) (es : List Event)
        → s.buffer ≡ some es
        → Shows response
            (stages es)
            (response_stages t response)
            (wrapped_method refuses metrics m response took t s)
    unfolding wrapped_method
    wrapped_method-Shows response took t s es h =
        let (base, e) = works.labels in
        let labels = build_labels base metrics.labels in
        let (c, made) = works.before labels in
        let args : EventArgs = record {
          error = none;
          result = none;
          duration = none;
          labels = labels;
        } in
        let (fs, h2, same) = (emit_built-Emitted t args false (ok c) s es (c, refl) h).1 in
        rw (e, made)
          (respond-Shows (stages es) response took
            (record { ticket = t; labels = labels; ends = ends_of c })
            (emit_built refuses metrics m t args false (ok c) s).1 (fs, h2, same))

    settle-Adds :
        (outcome : Outcome) (took : ℕ) (c : Call) (s : Service) (es : List Event)
        → s.buffer ≡ some es
        → let r = settle refuses metrics m outcome took c s in
          (r.0 ≡ settlement_of outcome) × Adds (stages es) (outcome_stages c.ticket outcome) r.1
    unfolding settle
    settle-Adds (resolves v) took c s es h =
        let (quiet, a) =
          after_call-Adds (stages es) [] v took c s (es, h, sym (append-nil (stages es))) in
        let (quiet2, b) =
          finally_call-Adds (stages es) ((c.ticket, after v) ∷ []) took c
            (after_call refuses metrics m v took c s).1 a in
        subst
          (λ r.
            let x = resolve refuses metrics m v took c r in
            (x.0 ≡ resolved v) × Adds (stages es) (outcome_stages c.ticket (resolves v)) x.1)
          (sym (quiet_pair (after_call refuses metrics m v took c s) quiet)) (refl, b)
    settle-Adds (rejects e) took c s es h =
        let (quiet, a) =
          throw_call-Adds (stages es) [] e took c s (es, h, sym (append-nil (stages es))) in
        let (quiet2, b) =
          finally_call-Adds (stages es) ((c.ticket, throw e) ∷ []) took c
            (throw_call refuses metrics m e took c s).1 a in
        rw quiet (refl, b)

  -- If every configuration that the options give can be built, so that none of their functions throws and
  -- every metric and every value that a metric needs is given, then the caller of a wrapped method sees what the method itself returns, throws or promises, and the promise settles as the method's
  -- does; a call emits `before`, then `finally` and `after` if the method returns a value, `throw` and
  -- `finally` if it throws, and, when its promise settles, `after` or `throw` and then `finally`.
  pub wrapped_method-transparent :
      (works : NeverThrows) (response : Response) (outcome : Outcome) (took later : ℕ) (t : ℕ)
      (c : Call) (s settles : Service) (es fs : List Event)
      → s.buffer ≡ some es
      → settles.buffer ≡ some fs
      → let (answer, s2) = wrapped_method refuses metrics m response took t s in
        let (settlement, s3) = settle refuses metrics m outcome later c settles in
        (seen answer ≡ response)
        × (history s2 ≡ stages es ++ response_stages t response)
        × (settlement ≡ settlement_of outcome)
        × (history s3 ≡ stages fs ++ outcome_stages c.ticket outcome)
  wrapped_method-transparent works response outcome took later t c s settles es fs h h2 =
      let (same, (gs, b, added)) = wrapped_method-Shows works response took t s es h in
      let (same2, (hs, b2, added2)) = settle-Adds works outcome later c settles fs h2 in
      (same, rw (history, b) added, same2, rw (history, b2) added2)
