-- ===== src/Http/Request/Timers.antt =====
-- The timers and the counts of a request.
use demo_hybrid_microservice.Common.{
  ℕ, suc, ◌+◌, ◌≡◌, refl, String, Bool, true, false, ◌||◌, List, [], ◌∷◌, Option, some,
  if◌then◌else◌, arith, Bool-cases, inl, inr,
}
use demo_hybrid_microservice.Http.Options.{StatusCode, can_retry}
use demo_hybrid_microservice.Http.Errors.{Exception, Resolved, response, failure}
use demo_hybrid_microservice.Http.Request.{
  Phase, running, waiting, finished, Outcome, Request, new_request, end_timer, finalize,
  catch_error, wait_retry, retry_attempt, Event, succeeds, fails, fires, times_out, retry_or_throw,
  attempt_fails, handle, step, run,
}

-- The timer that is under way in each phase.
abbrev pub open_timers : Phase → ℕ
open_timers running = 1
open_timers waiting = 0
open_timers finished = 0

abbrev pub is_running : Phase → Bool
is_running running = true
is_running waiting = false
is_running finished = false

abbrev pub is_finished : Phase → Bool
is_finished running = false
is_finished waiting = false
is_finished finished = true

-- Each timer but the one under way has been ended once, one was started for each attempt, and before
-- the end there is one under way exactly while an attempt is.
pub record IsTimed (r : Request) : Type 0 where
  pub balanced : r.started ≡ r.ended + open_timers r.phase
  pub attempts : r.started ≡ suc r.retried
  pub timed : (is_finished r.phase || r.timing) ≡ (is_finished r.phase || is_running r.phase)

-- What holds of a request that has not ended.
record IsLive (r : Request) : Type 0 where
  balanced : r.started ≡ r.ended + (if r.timing then 1 else 0)
  attempts : r.started ≡ suc r.retried

live : (p : Phase) (r : Request) → r.phase ≡ p → is_finished p ≡ false → IsTimed r → IsLive r
live running r e o v = record {
  balanced = ground (arith, v.balanced, v.timed, e);
  attempts = v.attempts;
}
live waiting r e o v = record {
  balanced = ground (arith, v.balanced, v.timed, e);
  attempts = v.attempts;
}
live finished r e o v = record { balanced = ground arith; attempts = v.attempts }

finalize-IsTimed : (o : Outcome) (r : Request) → IsLive r → IsTimed (finalize o r)
unfolding finalize end_timer
finalize-IsTimed o r v = elim (Bool-cases r.timing) [
  | inl on ↦
      simp on
        (record { balanced = ground (arith, v.balanced, on); attempts = v.attempts; timed = refl })
  | inr off ↦
      simp off
        (record { balanced = ground (arith, v.balanced, off); attempts = v.attempts; timed = refl })
]

catch_error-IsTimed : (o : Resolved) (r : Request) → IsLive r → IsTimed (catch_error o r)
unfolding catch_error
catch_error-IsTimed (failure e) r v =
    finalize-IsTimed _ (record r { failed = r.failed + 1 })
      (record { balanced = v.balanced; attempts = v.attempts })
catch_error-IsTimed (response status) r v = finalize-IsTimed _ r v

wait_retry-IsTimed : (r : Request) → IsLive r → IsTimed (wait_retry r)
unfolding wait_retry end_timer
wait_retry-IsTimed r v = elim (Bool-cases r.timing) [
  | inl on ↦
      simp on
        (record { balanced = ground (arith, v.balanced, on); attempts = v.attempts; timed = refl })
  | inr off ↦
      simp off
        (record { balanced = ground (arith, v.balanced, off); attempts = v.attempts; timed = refl })
]

retry_attempt-IsTimed : (r : Request) → r.phase ≡ waiting → IsTimed r → IsTimed (retry_attempt r)
unfolding retry_attempt
retry_attempt-IsTimed r e v = record {
  balanced = ground (arith, v.balanced, e);
  attempts = omega (arith, v.attempts);
  timed = refl;
}

module _ (not_found no_content : ℕ) (timeout_codes external_codes : List String)
    (codes : Option (List StatusCode)) where
  retry_or_throw-IsTimed :
      (o : Resolved) (r : Request)
      → IsLive r
      → IsTimed (retry_or_throw not_found no_content timeout_codes external_codes codes o r)
  unfolding retry_or_throw
  retry_or_throw-IsTimed (failure e) r v =
      elim (Bool-cases (can_retry (some e.status_code) codes)) [
        | inl can ↦ rw can (wait_retry-IsTimed r v)
        | inr cannot ↦ rw cannot (catch_error-IsTimed (failure e) r v)
      ]
  retry_or_throw-IsTimed (response status) r v = catch_error-IsTimed (response status) r v

  attempt_fails-IsTimed :
      (asked : Bool) (e : Exception) (r : Request)
      → IsLive r
      → IsTimed (attempt_fails not_found no_content timeout_codes external_codes codes asked e r)
  unfolding attempt_fails
  attempt_fails-IsTimed true e r v = retry_or_throw-IsTimed _ r v
  attempt_fails-IsTimed false e r v = catch_error-IsTimed _ r v

  handle-IsTimed :
      (p : Phase) (e : Event) (r : Request)
      → r.phase ≡ p
      → IsTimed r
      → IsTimed (handle not_found no_content timeout_codes external_codes codes p e r)
  unfolding handle
  handle-IsTimed running (succeeds status) r h v = finalize-IsTimed _ r (live running r h refl v)
  handle-IsTimed running (fails asked e) r h v =
      attempt_fails-IsTimed asked e r (live running r h refl v)
  handle-IsTimed running fires r h v = v
  handle-IsTimed running (times_out m) r h v = catch_error-IsTimed _ r (live running r h refl v)
  handle-IsTimed waiting fires r h v = retry_attempt-IsTimed r h v
  handle-IsTimed waiting (times_out m) r h v = catch_error-IsTimed _ r (live waiting r h refl v)
  handle-IsTimed waiting (succeeds status) r h v = v
  handle-IsTimed waiting (fails asked e) r h v = v
  handle-IsTimed finished e r h v = v

  run-IsTimed :
      (r : Request) (es : List Event)
      → IsTimed r
      → IsTimed (run not_found no_content timeout_codes external_codes codes r es)
  unfolding run step
  run-IsTimed r [] v = v
  run-IsTimed r (e ∷ es) v =
      run-IsTimed (step not_found no_content timeout_codes external_codes codes r e) es
        (handle-IsTimed r.phase e r refl v)

  -- Whatever happens to a request, in any order: one timer is started for each attempt; each is ended
  -- exactly once, the one of an attempt under way excepted; so that a request that has ended has ended
  -- all of them.
  pub run-new_request-IsTimed :
      (es : List Event)
      → IsTimed (run not_found no_content timeout_codes external_codes codes new_request es)
  run-new_request-IsTimed es =
      run-IsTimed new_request es (record { balanced = refl; attempts = refl; timed = refl })
