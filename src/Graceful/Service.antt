-- ===== src/Graceful/Service.antt =====
-- `GracefulShutdownService.beforeApplicationShutdown` of
-- src/modules/graceful-shutdown/services/graceful-shutdown.service.ts, the getters of
-- graceful-shutdown.config.ts, and `promisesTimeout` of src/modules/date-timestamp/utils/utils.ts.
-- Times are milliseconds. What the phases do is given by when, and how, their promises settle.
pub mod Exit
pub mod Phases
use demo_hybrid_microservice.Common.{
  ℕ, ◌+◌, String, Bool, true, false, not, ◌&&◌, ◌||◌, List, [], ◌∷◌, ◌++◌, Option, none, some, ltb,
  ◌==◌, if◌then◌else◌, str_eq,
}

-- `none` is an unset variable, for which the getter gives the default.
pub record Config : Type 0 where
  pub is_enabled : Bool
  pub timeout_before_destroy : Option ℕ
  pub timeout_destroy : Option ℕ
  pub timeout_after_destroy : Option ℕ
  pub grace_period : Option ℕ
  pub destroy_signal : String

abbrev or_default : ℕ → Option ℕ → ℕ
or_default d none = d
or_default d (some n) = n

-- `GRACEFUL_SHUTDOWN_DEFAULT_OPTIONS`.
abbrev pub get_timeout_before_destroy : Config → ℕ
get_timeout_before_destroy c = or_default 10000 c.timeout_before_destroy

abbrev pub get_timeout_destroy : Config → ℕ
get_timeout_destroy c = or_default 30000 c.timeout_destroy

abbrev pub get_timeout_after_destroy : Config → ℕ
get_timeout_after_destroy c = or_default 10000 c.timeout_after_destroy

abbrev pub get_grace_period : Config → ℕ
get_grace_period c = or_default 15000 c.grace_period

pub data Error : Type 0 where
  timeout_error : ℕ → Error
  other_error : String → Error

-- A promise, by its fate.
pub data Settled : Type 0 where
  resolves : (at : ℕ) → Settled
  rejects : (at : ℕ) → Error → Settled
  never : Settled

-- The end of an awaited part of the `try` block, with the time that it took.
pub data Ended : Type 0 where
  passed : (elapsed : ℕ) → Ended
  broke : (elapsed : ℕ) → Error → Ended

-- A timer fires no earlier than in the next millisecond, and one whose delay does not fit into 31 bits
-- fires then.
unfoldable pub timer_delay : ℕ → ℕ
timer_delay ms = if ms == 0 || ltb 2147483647 ms then 1 else ms

-- The race against the timer. A promise that has settled before wins, and one that settles at the
-- timer's own millisecond comes late.
pub promises_timeout : ℕ → Settled → Ended
promises_timeout ms (resolves at) =
    if ltb at (timer_delay ms) then passed at else broke (timer_delay ms) (timeout_error ms)
promises_timeout ms (rejects at e) =
    if ltb at (timer_delay ms) then broke at e else broke (timer_delay ms) (timeout_error ms)
promises_timeout ms never = broke (timer_delay ms) (timeout_error ms)

-- What happens outside: when the promises of `emit` settle, when the counter is first 0, and when
-- rxjs's `timeout` would fire between two values of the counter.
pub record World : Type 0 where
  pub before : Settled
  pub drained : Option ℕ
  pub silence : Option ℕ
  pub after : Settled

abbrev earlier : ℕ → Option ℕ → Bool
earlier q none = true
earlier q (some t) = ltb q t

drained_at : Option ℕ → Settled
drained_at none = never
drained_at (some t) = resolves t

silenced : Config → Option ℕ → Option ℕ → Settled
unfolding drained_at
silenced c none drained = drained_at drained
silenced c (some q) drained =
    if earlier q drained
    then rejects q (timeout_error (get_timeout_destroy c))
    else drained_at drained

-- `waitForMethodsDone`: the operator is `timeout` if the time before destroy is not 0, else `identity`.
pub wait_promise : Config → World → Settled
unfolding silenced
wait_promise c w =
    if get_timeout_before_destroy c == 0
    then drained_at w.drained
    else silenced c w.silence w.drained

pub data Action : Type 0 where
  log_start log_done : Action
  timer_start timer_end : Action
  begin_before begin_wait begin_after : Action
  log_waiting : Action
  failed_timer_start : Action
  status_active_process : Action
  log_timeout : Error → Action
  log_failed : Error → Action
  exit : ℕ → Action

-- The state of the service with what it has done and how long that took.
pub record Shutdown : Type 0 where
  pub is_run : Bool
  pub actions : List Action
  pub elapsed : ℕ

-- `!isEnabled || (signal && signal?.toString() !== destroySignal)`.
unfoldable pub is_skipped : Config → Option String → Bool
is_skipped c none = not c.is_enabled
is_skipped c (some s) = not c.is_enabled || (not (str_eq s "") && not (str_eq s c.destroy_signal))

-- The three awaits of the `try` block, each begun only if the one before has passed. `t` is the time
-- that the parts before took.
add_elapsed : ℕ → Ended → Ended
add_elapsed t (passed u) = passed (t + u)
add_elapsed t (broke u e) = broke (t + u) e

after_phase : Config → World → Ended → Ended × List Action
unfolding add_elapsed
after_phase c w (broke t e) = (broke t e, [])
after_phase c w (passed t) =
    (add_elapsed t (promises_timeout (get_timeout_after_destroy c) w.after), begin_after ∷ [])

wait_phase : Config → World → Ended → Ended × List Action
unfolding after_phase
wait_phase c w (broke t e) = (broke t e, [])
wait_phase c w (passed t) =
    let (end, acts) =
      after_phase c w
        (add_elapsed t (promises_timeout (get_timeout_destroy c) (wait_promise c w))) in
    (end, begin_wait ∷ acts)

pub phases : Config → World → Ended × List Action
unfolding wait_phase
phases c w =
    let (end, acts) = wait_phase c w (promises_timeout (get_timeout_before_destroy c) w.before) in
    (end, begin_before ∷ acts)

abbrev log_error : Error → Action
log_error (timeout_error ms) = log_timeout (timeout_error ms)
log_error (other_error m) = log_failed (other_error m)

finish : Config → List Action → Ended → Shutdown
finish c acts (passed t) = record {
  is_run = true;
  actions = log_start ∷ timer_start ∷ acts ++ (log_waiting ∷ timer_end ∷ exit 0 ∷ []);
  elapsed = t + timer_delay (get_grace_period c);
}
finish c acts (broke t e) = record {
  is_run = true;
  actions =
      log_start ∷ timer_start ∷ acts
      ++ (timer_end ∷ failed_timer_start ∷ status_active_process ∷ log_error e ∷ exit 1 ∷ []);
  elapsed = t + timer_delay (get_grace_period c);
}

pub before_application_shutdown : Config → Option String → World → Bool → Shutdown
unfolding finish
before_application_shutdown c signal w is_run =
    if is_skipped c signal
    then record { is_run = is_run; actions = log_start ∷ log_done ∷ []; elapsed = 0 }
    else let (end, acts) = phases c w in finish c acts end
