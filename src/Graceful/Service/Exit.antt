-- ===== src/Graceful/Service/Exit.antt =====
-- How a shutdown ends, which phases it runs, and how long it takes.
use demo_hybrid_microservice.Common.{
  ℕ, ◌+◌, ◌≤◌, ◌≡◌, refl, String, Bool, true, false, not, ◌&&◌, ◌||◌, List, [], ◌∷◌, ◌++◌, Option,
  if◌then◌else◌, arith, any_of, Bool-cases, inl, inr, ◌∙◌, ap, sym, append_assoc,
}
use demo_hybrid_microservice.Graceful.Service.{
  Config, get_timeout_before_destroy, get_timeout_destroy, get_grace_period, timeout_error,
  other_error, Ended, passed, broke, timer_delay, World, Action, Shutdown, is_skipped, phases,
  finish, before_application_shutdown,
}
use demo_hybrid_microservice.Graceful.Service.Phases.{
  exit_of, exits, in_time, FiresLate, most_time, Comes, is_begin_after, phases-Comes, within,
  drained_within,
}

exits-append : (xs ys : List Action) → exits (xs ++ ys) ≡ exits xs ++ exits ys
exits-append [] ys = refl
exits-append (x ∷ xs) ys =
    ap (◌++◌ (exit_of x)) (exits-append xs ys)
    ∙ sym (append_assoc (exit_of x) (exits xs) (exits ys))

called-append :
    (xs ys : List Action)
    → any_of is_begin_after (xs ++ ys) ≡ (any_of is_begin_after xs || any_of is_begin_after ys)
called-append [] ys = refl
called-append (x ∷ xs) ys = ground (arith, called-append xs ys)

-- A shutdown that is not skipped ends as its phases did.
record Ends (ok called : Bool) (most : ℕ) (s : Shutdown) : Type 0 where
  running : s.is_run ≡ true
  code : exits s.actions ≡ (if ok then 0 else 1) ∷ []
  last : any_of is_begin_after s.actions ≡ called
  bounded : s.elapsed ≤ most

finish-Ends :
    (c : Config) (ok called : Bool) (most : ℕ) (e : Ended) (acts : List Action)
    → Comes ok called most (e, acts)
    → Ends ok called (most + timer_delay (get_grace_period c)) (finish c acts e)
unfolding finish
finish-Ends c ok called most (passed t) acts r = record {
  running = refl;
  code = exits-append acts _ ∙ rw (r.quiet, ← r.well) refl;
  last = called-append acts _ ∙ ground (arith, r.last);
  bounded = omega (arith, r.bounded);
}
finish-Ends c ok called most (broke t (timeout_error ms)) acts r = record {
  running = refl;
  code = exits-append acts _ ∙ rw (r.quiet, ← r.well) refl;
  last = called-append acts _ ∙ ground (arith, r.last);
  bounded = omega (arith, r.bounded);
}
finish-Ends c ok called most (broke t (other_error m)) acts r = record {
  running = refl;
  code = exits-append acts _ ∙ rw (r.quiet, ← r.well) refl;
  last = called-append acts _ ∙ ground (arith, r.last);
  bounded = omega (arith, r.bounded);
}

shutdown_skipped :
    (c : Config) (signal : Option String) (w : World) (r : Bool)
    → is_skipped c signal ≡ true
    → (exits (before_application_shutdown c signal w r).actions ≡ [])
      × ((before_application_shutdown c signal w r).is_run ≡ r)
      × ((before_application_shutdown c signal w r).elapsed ≡ 0)
      × (any_of is_begin_after (before_application_shutdown c signal w r).actions ≡ false)
unfolding before_application_shutdown
shutdown_skipped c signal w r skip = rw (skip, before_application_shutdown) (refl, refl, refl, refl)

shutdown-Ends :
    (c : Config) (signal : Option String) (w : World) (r : Bool)
    → is_skipped c signal ≡ false
    → FiresLate c w
    → Ends
        (in_time c w)
        (within (get_timeout_before_destroy c) w.before
          && drained_within (get_timeout_destroy c) w.drained)
        (most_time c + timer_delay (get_grace_period c))
        (before_application_shutdown c signal w r)
unfolding before_application_shutdown
shutdown-Ends c signal w r go h =
    rw (go, before_application_shutdown)
      (finish-Ends c _ _ _ (phases c w).0 (phases c w).1 (phases-Comes c w h))

-- If rxjs's `timeout` fires only after its time, then a shutdown, skipped or not, takes no longer than the
-- timers of the three phases and of the grace period together, whatever the subscribers and the active
-- methods do; the timer of a time that is 0, or more than 2147483647, fires after 1 ms.
pub shutdown_bounded :
    (c : Config) (signal : Option String) (w : World) (r : Bool)
    → FiresLate c w
    → (before_application_shutdown c signal w r).elapsed
      ≤ most_time c + timer_delay (get_grace_period c)
shutdown_bounded c signal w r h = elim (Bool-cases (is_skipped c signal)) [
  | inl skip ↦ omega (arith, (shutdown_skipped c signal w r skip).2)
  | inr go ↦ (shutdown-Ends c signal w r go h).bounded
]

-- The subscribers of AFTER_DESTROY are called exactly in a shutdown that is not skipped, whose
-- subscribers of BEFORE_DESTROY end well in time and whose active methods are done in time, if rxjs's
-- `timeout` fires only after its time.
after_destroy_called :
    (c : Config) (signal : Option String) (w : World) (r : Bool)
    → FiresLate c w
    → any_of is_begin_after (before_application_shutdown c signal w r).actions ≡ (
        not (is_skipped c signal)
        && (within (get_timeout_before_destroy c) w.before
            && drained_within (get_timeout_destroy c) w.drained))
after_destroy_called c signal w r h = elim (Bool-cases (is_skipped c signal)) [
  | inl skip ↦ rw skip (shutdown_skipped c signal w r skip).3
  | inr go ↦ rw go (shutdown-Ends c signal w r go h).last
]
