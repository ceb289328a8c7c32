-- ===== src/Graceful/Wait.antt =====
-- `waitForMethodsDone` of src/modules/graceful-shutdown/services/graceful-shutdown.service.ts over the
-- counter's `BehaviorSubject`, through `timeout(getTimeoutDestroy())` or `identity`. When rxjs's `timeout`
-- fires is given from outside.
use demo_hybrid_microservice.Common.{
  any_of, ◌≡◌, refl, Bool, true, false, List, [], ◌∷◌, ℤ, is_zero_ℤ, if◌then◌else◌, ◌||◌, ◌&&◌, not,
  ap, ◌==◌, arith, Bool-cases, inl, inr, ◌∙◌,
}
use demo_hybrid_microservice.Graceful.Service.{Config, get_timeout_before_destroy}
use demo_hybrid_microservice.Graceful.Counter.{Process, Event, step, run, boot}
use demo_hybrid_microservice.Graceful.Counter.Balance.{
  active, IsBalanced, step-IsBalanced, run-boot-IsBalanced,
}
use demo_hybrid_microservice.Graceful.Counter.Emissions.{
  has_zero, Emitted, step-Emitted, step-has_zero,
}

-- The promise of `new Promise((resolve, reject) => ...)`; it settles once.
pub data Wait : Type 0 where
  waiting resolved rejected : Wait

-- The subscriber's `next`: `if (value !== 0) { return; }`, then `resolve()`.
pub on_next : Wait → ℤ → Wait
on_next waiting v = if is_zero_ℤ v then resolved else waiting
on_next resolved v = resolved
on_next rejected v = rejected

-- The subscriber's `error`: `reject(this.handleError(...))`.
pub on_error : Wait → Wait
on_error waiting = rejected
on_error resolved = resolved
on_error rejected = rejected

on_values : Wait → List ℤ → Wait
on_values w [] = w
on_values w (v ∷ vs) = on_values (on_next w v) vs

-- Subscribing to a `BehaviorSubject` gives its value at once; `published` begins anew with it.
pub subscribe : Process → Process
subscribe p = record p { handler = record (p.handler) { published = p.handler.total ∷ [] } }

-- What goes on while the wait lasts: an event of the process, or the firing of rxjs's `timeout`.
pub data Notice : Type 0 where
  happens : Event → Notice
  times_out : Notice

-- `getTimeoutBeforeDestroy() ? timeout(getTimeoutDestroy()) : identity`
abbrev has_timeout : Config → Bool
has_timeout c = not (get_timeout_before_destroy c == 0)

-- The events whose values the operator passes on, and whether it ends with an error then.
unfoldable pub passed_on : Bool → List Notice → List Event
passed_on timed [] = []
passed_on timed (happens e ∷ ns) = e ∷ passed_on timed ns
passed_on timed (times_out ∷ ns) = if timed then [] else passed_on timed ns

unfoldable pub is_timed_out : Bool → List Notice → Bool
is_timed_out timed [] = false
is_timed_out timed (happens e ∷ ns) = is_timed_out timed ns
is_timed_out timed (times_out ∷ ns) = timed || is_timed_out timed ns

on_end : Bool → Wait → Wait
unfolding on_error
on_end false w = w
on_end true w = on_error w

-- The promise after the notices `ns`, when the wait begins in the state `p`.
pub wait_for_methods_done : Config → Process → List Notice → Wait
unfolding subscribe on_values on_next on_end passed_on is_timed_out
wait_for_methods_done c p ns =
    let timed = has_timeout c in
    on_end (is_timed_out timed ns)
      (on_values waiting (run (subscribe p) (passed_on timed ns)).handler.published)

-- At some moment of the run no bound call is in flight.
abbrev pub drains : Process → List Event → Bool
drains p [] = active p.pending == 0
drains p (e ∷ es) = active p.pending == 0 || drains (step p e) es

-- A promise that has resolved before stays resolved.
pub is_resolved : Wait → Bool
is_resolved waiting = false
is_resolved resolved = true
is_resolved rejected = false

pub is_rejected : Wait → Bool
is_rejected waiting = false
is_rejected resolved = false
is_rejected rejected = true

on_end-is_resolved : (b : Bool) (w : Wait) → is_resolved (on_end b w) ≡ is_resolved w
unfolding on_end on_error is_resolved
on_end-is_resolved false w = refl
on_end-is_resolved true waiting = refl
on_end-is_resolved true resolved = refl
on_end-is_resolved true rejected = refl

on_values-resolved : (vs : List ℤ) → on_values resolved vs ≡ resolved
unfolding on_values on_next
on_values-resolved [] = refl
on_values-resolved (v ∷ vs) = on_values-resolved vs

on_values-is_rejected :
    (b : Bool) (vs : List ℤ)
    → is_rejected (on_end b (on_values waiting vs))
      ≡ (b && not (is_resolved (on_values waiting vs)))
unfolding on_values on_next on_end on_error is_resolved is_rejected
on_values-is_rejected false [] = refl
on_values-is_rejected true [] = refl
on_values-is_rejected b (v ∷ vs) = elim (Bool-cases (is_zero_ℤ v)) [
  | inl zero ↦ rw (zero, on_values-resolved vs) (done b)
  | inr other ↦ rw other (on_values-is_rejected b vs)
]
  where
    done : (b : Bool) → is_rejected (on_end b resolved) ≡ (b && false)
    done false = refl
    done true = refl

on_values-eq : (vs : List ℤ) → is_resolved (on_values waiting vs) ≡ has_zero vs
unfolding on_values on_next is_resolved
on_values-eq [] = refl
on_values-eq (v ∷ vs) = elim (Bool-cases (is_zero_ℤ v)) [
  | inl zero ↦ rw (zero, on_values-resolved vs) refl
  | inr other ↦ rw other (on_values-eq vs)
]

drains-start : (p : Process) (es : List Event) → active p.pending ≡ 0 → drains p es ≡ true
drains-start p [] h = ground arith
drains-start p (e ∷ es) h = ground arith

run-has_zero :
    (p : Process) (es : List Event)
    → IsBalanced p
    → Emitted p.handler
    → has_zero (run p es).handler.published ≡ (has_zero p.handler.published || drains p es)
unfolding run
run-has_zero p [] b m = ground (arith, b.counted, m.current)
run-has_zero p (e ∷ es) b m =
    let b' = step-IsBalanced p e b in
    ground (
      arith,
      run-has_zero (step p e) es b' (step-Emitted p e b m),
      step-has_zero p e b m,
      drains-start (step p e) es,
      b.counted,
      b'.counted,
      m.current,
    )

-- Before `timeout` fires, if it can, no bound call is in flight at some moment.
abbrev pub drains_before : Bool → Process → List Notice → Bool
drains_before timed p [] = active p.pending == 0
drains_before timed p (happens e ∷ ns) = active p.pending == 0 || drains_before timed (step p e) ns
drains_before true p (times_out ∷ ns) = active p.pending == 0
drains_before false p (times_out ∷ ns) = drains_before false p ns

abbrev pub is_firing : Notice → Bool
is_firing times_out = true
is_firing (happens e) = false

drains-passed_on :
    (timed : Bool) (p : Process) (ns : List Notice)
    → drains p (passed_on timed ns) ≡ drains_before timed p ns
unfolding passed_on
drains-passed_on timed p [] = refl
drains-passed_on timed p (happens e ∷ ns) =
    ap (λ b. active p.pending == 0 || b) (drains-passed_on timed (step p e) ns)
drains-passed_on true p (times_out ∷ ns) = refl
drains-passed_on false p (times_out ∷ ns) = drains-passed_on false p ns

is_timed_out-any_of :
    (timed : Bool) (ns : List Notice) → is_timed_out timed ns ≡ (timed && any_of is_firing ns)
unfolding is_timed_out
is_timed_out-any_of true [] = refl
is_timed_out-any_of false [] = refl
is_timed_out-any_of timed (happens e ∷ ns) = is_timed_out-any_of timed ns
is_timed_out-any_of true (times_out ∷ ns) = refl
is_timed_out-any_of false (times_out ∷ ns) = is_timed_out-any_of false ns

-- After any history of the process, the wait begun then resolves exactly if no counted call is in flight
-- at some moment, its beginning included, before rxjs's `timeout` fires, where the operator is `identity`
-- if the time before destroy is 0; and it rejects exactly if `timeout` fires without such a moment before.
pub wait_resolves :
    (c : Config) (past : List Event) (ns : List Notice)
    → let p = subscribe (run boot past) in
      let w = wait_for_methods_done c (run boot past) ns in
      let timed = not (get_timeout_before_destroy c == 0) in
      (is_resolved w ≡ drains_before timed p ns)
      × (is_rejected w ≡ (timed && any_of is_firing ns && not (drains_before timed p ns)))
unfolding wait_for_methods_done
wait_resolves c past ns =
    let timed = has_timeout c in
    let es = passed_on timed ns in
    let b = run-boot-IsBalanced past in
    let p = subscribe (run boot past) in
    let b' : IsBalanced p = record { counted = b.counted; gauged = b.gauged } in
    let vs = (run p es).handler.published in
    let drained : is_resolved (on_values waiting vs) ≡ drains_before timed p ns =
      on_values-eq vs
      ∙ run-has_zero p es b' (record { current = λ z. ground (arith, b.counted) })
      ∙ ground (arith, drains-start p es, b'.counted)
      ∙ drains-passed_on timed p ns in
    (
      on_end-is_resolved (is_timed_out timed ns) (on_values waiting vs) ∙ drained,
      on_values-is_rejected (is_timed_out timed ns) vs
          ∙ ap (λ x. is_timed_out timed ns && not x) drained
          ∙ ap (λ b. b && not (drains_before timed p ns)) (is_timed_out-any_of timed ns),
    )
