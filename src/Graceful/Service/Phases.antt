-- ===== src/Graceful/Service/Phases.antt =====
-- The phases of a shutdown: whether each ends well, which are begun, and how long they take.
use demo_hybrid_microservice.Common.{
  ℕ, ◌+◌, ◌≤◌, ◌≡◌, refl, Bool, true, false, ◌&&◌, List, [], ◌∷◌, ◌++◌, Option, none, some, ltb,
  ◌==◌, arith, any_of, Bool-cases, inl, inr, ◌∙◌,
}
use demo_hybrid_microservice.Graceful.Service.{
  Config, get_timeout_before_destroy, get_timeout_destroy, get_timeout_after_destroy, Settled,
  resolves, rejects, never, Ended, passed, broke, timer_delay, promises_timeout, World, drained_at,
  silenced, wait_promise, add_elapsed, Action, begin_after, exit, after_phase, wait_phase, phases,
}

abbrev pub exit_of : Action → List ℕ
exit_of (exit n) = n ∷ []
exit_of _ = []

-- The codes of the calls of `process.exit`.
abbrev pub exits : List Action → List ℕ
exits [] = []
exits (act ∷ rest) = exit_of act ++ exits rest

-- The promise is fulfilled before a timer of `ms` fires.
abbrev pub within : ℕ → Settled → Bool
within ms (resolves at) = ltb at (timer_delay ms)
within ms (rejects at e) = false
within ms never = false

abbrev pub drained_within : ℕ → Option ℕ → Bool
drained_within ms none = false
drained_within ms (some at) = ltb at (timer_delay ms)

-- Each phase ends well within its own time.
abbrev pub in_time : Config → World → Bool
in_time c w =
    within (get_timeout_before_destroy c) w.before
    && (drained_within (get_timeout_destroy c) w.drained
        && within (get_timeout_after_destroy c) w.after)

-- rxjs: `timeout(ms)` fires only after a timer of `ms` without a value.
abbrev pub FiresLate : Config → World → Type 0
FiresLate c w = (q : ℕ) → w.silence ≡ some q → timer_delay (get_timeout_destroy c) ≤ q

-- The timers of the three phases together.
abbrev pub most_time : Config → ℕ
most_time c =
    timer_delay (get_timeout_before_destroy c)
    + timer_delay (get_timeout_destroy c)
    + timer_delay (get_timeout_after_destroy c)

abbrev pub ended_well : Ended → Bool
ended_well (passed t) = true
ended_well (broke t e) = false

abbrev pub elapsed_of : Ended → ℕ
elapsed_of (passed t) = t
elapsed_of (broke t e) = t

promises_timeout-well : (ms : ℕ) (s : Settled) → ended_well (promises_timeout ms s) ≡ within ms s
unfolding promises_timeout
promises_timeout-well ms (resolves at) = ground arith
promises_timeout-well ms (rejects at e) = ground arith
promises_timeout-well ms never = refl

promises_timeout-le : (ms : ℕ) (s : Settled) → elapsed_of (promises_timeout ms s) ≤ timer_delay ms
unfolding promises_timeout
promises_timeout-le ms (resolves at) = ground arith
promises_timeout-le ms (rejects at e) = ground arith
promises_timeout-le ms never = omega arith

drained_at-within : (ms : ℕ) (d : Option ℕ) → within ms (drained_at d) ≡ drained_within ms d
unfolding drained_at
drained_at-within ms none = refl
drained_at-within ms (some t) = refl

silenced-within :
    (c : Config) (silence drained : Option ℕ)
    → ((q : ℕ) → silence ≡ some q → timer_delay (get_timeout_destroy c) ≤ q)
    → within (get_timeout_destroy c) (silenced c silence drained)
      ≡ drained_within (get_timeout_destroy c) drained
unfolding silenced drained_at
silenced-within c none drained h = drained_at-within _ drained
silenced-within c (some q) none h = refl
silenced-within c (some q) (some t) h = ground (arith, h q refl)

-- The inner `timeout` operator never changes whether the wait is in time.
wait_promise-within :
    (c : Config) (w : World)
    → FiresLate c w
    → within (get_timeout_destroy c) (wait_promise c w)
      ≡ drained_within (get_timeout_destroy c) w.drained
unfolding wait_promise
wait_promise-within c w h = elim (Bool-cases (get_timeout_before_destroy c == 0)) [
  | inl off ↦ rw off (drained_at-within _ w.drained)
  | inr on ↦ rw on (silenced-within c w.silence w.drained h)
]

abbrev pub is_begin_after : Action → Bool
is_begin_after begin_after = true
is_begin_after _ = false

add_elapsed-well : (t : ℕ) (e : Ended) → ended_well (add_elapsed t e) ≡ ended_well e
unfolding add_elapsed
add_elapsed-well t (passed u) = refl
add_elapsed-well t (broke u e) = refl

add_elapsed-elapsed : (t : ℕ) (e : Ended) → elapsed_of (add_elapsed t e) ≡ t + elapsed_of e
unfolding add_elapsed
add_elapsed-elapsed t (passed u) = refl
add_elapsed-elapsed t (broke u e) = refl

-- What a phase, and all that follows it, comes to after an earlier part that ended as `e`: whether all
-- is well, whether the subscribers of the last event are called, and the time.
pub record Comes (ok called : Bool) (most : ℕ) (r : Ended × List Action) : Type 0 where
  pub well : ended_well r.0 ≡ ok
  pub quiet : exits r.1 ≡ []
  pub last : any_of is_begin_after r.1 ≡ called
  pub bounded : elapsed_of r.0 ≤ most

after_phase-Comes :
    (c : Config) (w : World) (e : Ended)
    → Comes
        (ended_well e && within (get_timeout_after_destroy c) w.after)
        (ended_well e)
        (elapsed_of e + timer_delay (get_timeout_after_destroy c))
        (after_phase c w e)
unfolding after_phase
after_phase-Comes c w (broke t e) = record {
  well = refl;
  quiet = refl;
  last = refl;
  bounded = omega arith;
}
after_phase-Comes c w (passed t) =
    let ms = get_timeout_after_destroy c in
    let e = promises_timeout ms w.after in
    record {
      well = add_elapsed-well t e ∙ promises_timeout-well ms w.after;
      quiet = refl;
      last = refl;
      bounded = omega (arith, add_elapsed-elapsed t e, promises_timeout-le ms w.after);
    }

wait_phase-Comes :
    (c : Config) (w : World) (e : Ended)
    → FiresLate c w
    → Comes
        (ended_well e
          && (drained_within (get_timeout_destroy c) w.drained
              && within (get_timeout_after_destroy c) w.after))
        (ended_well e && drained_within (get_timeout_destroy c) w.drained)
        (elapsed_of e
          + timer_delay (get_timeout_destroy c)
          + timer_delay (get_timeout_after_destroy c))
        (wait_phase c w e)
unfolding wait_phase
wait_phase-Comes c w (broke t e) h = record {
  well = refl;
  quiet = refl;
  last = refl;
  bounded = omega arith;
}
wait_phase-Comes c w (passed t) h =
    let ms = get_timeout_destroy c in
    let e = promises_timeout ms (wait_promise c w) in
    let drained =
      add_elapsed-well t e
      ∙ promises_timeout-well ms (wait_promise c w)
      ∙ wait_promise-within c w h in
    let r = after_phase-Comes c w (add_elapsed t e) in
    record {
      well = rw (← drained) r.well;
      quiet = r.quiet;
      last = r.last ∙ drained;
      bounded =
          omega
            (arith, r.bounded, add_elapsed-elapsed t e, promises_timeout-le ms (wait_promise c w));
    }

pub phases-Comes :
    (c : Config) (w : World)
    → FiresLate c w
    → Comes
        (in_time c w)
        (within (get_timeout_before_destroy c) w.before
          && drained_within (get_timeout_destroy c) w.drained)
        (most_time c)
        (phases c w)
unfolding phases
phases-Comes c w h =
    let ms = get_timeout_before_destroy c in
    let e = promises_timeout ms w.before in
    let r = wait_phase-Comes c w e h in
    let before = promises_timeout-well ms w.before in
    record {
      well = rw (← before) r.well;
      quiet = r.quiet;
      last = rw (← before) r.last;
      bounded = omega (arith, r.bounded, promises_timeout-le ms w.before);
    }
