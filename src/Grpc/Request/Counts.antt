-- ===== src/Grpc/Request/Counts.antt =====
-- The timers and the counts of a gRPC request.
use demo_hybrid_microservice.Common.{
  ◌+◌, ◌≡◌, refl, Bool, true, false, List, [], ◌∷◌, Option, arith, Bool-cases, inl, inr, subst,
  if◌then◌else◌, sym,
}
use demo_hybrid_microservice.Http.Options.{StatusCode}
use demo_hybrid_microservice.Grpc.Options.{can_retry}
use demo_hybrid_microservice.Grpc.Errors.{
  timed_out, Resolved, nothing, failure, GrpcStatus, handle_error,
}
use demo_hybrid_microservice.Grpc.Request.{
  Phase, running, waiting, finished, Outcome, pending, rejects, Request, new_request, catch_error,
  wait_retry, Event, succeeds, completes, fails, fires, times_out, attempt_fails, handle, step, run,
}

-- How a request has ended: with an error, during an attempt or while it waited for the next one, which has
-- no timer; or without an error.
abbrev pub IsCountedEnd : Outcome → Request → Type 0
IsCountedEnd (rejects e) r = r.failed ≡ r.retried + (if r.timing then 1 else 2)
IsCountedEnd _ r = r.failed ≡ r.retried

-- The timers and the failures that are counted in each phase.
abbrev pub IsCountedIn : Phase → Request → Type 0
IsCountedIn running r =
    (r.started ≡ r.ended + 1) × (r.failed ≡ r.retried) × (r.timing ≡ true) × (r.outcome ≡ pending)
IsCountedIn waiting r =
    (r.started ≡ r.ended) × (r.failed ≡ r.retried + 1) × (r.timing ≡ false) × (r.outcome ≡ pending)
IsCountedIn finished r = (r.started ≡ r.ended) × IsCountedEnd r.outcome r

pub record IsCounted (r : Request) : Type 0 where
  pub attempts : r.started ≡ r.retried + 1
  pub counted : IsCountedIn r.phase r

module _ (status : GrpcStatus) (codes : Option (List StatusCode)) where
  wait_retry-IsCounted :
      (r : Request) → r.started ≡ r.retried + 1 → IsCountedIn running r → IsCounted (wait_retry r)
  wait_retry-IsCounted r a (s, f, t, o) = record {
    attempts = a;
    counted = (ground (arith, s, t), omega (arith, f), refl, o);
  }

  catch_error-IsCounted :
      (o : Resolved) (r : Request)
      → r.started ≡ r.retried + 1
      → IsCountedIn running r
      → IsCounted (catch_error o r)
  catch_error-IsCounted (failure e) r a (s, f, t, o) = record {
    attempts = a;
    counted = (ground (arith, s, t), ground (arith, f, t));
  }
  catch_error-IsCounted nothing r a (s, f, t, o) = record {
    attempts = a;
    counted = (ground (arith, s, t), f);
  }

  attempt_fails-IsCounted :
      (asked : Bool) (o : Resolved) (r : Request)
      → r.started ≡ r.retried + 1
      → IsCountedIn running r
      → IsCounted (attempt_fails status codes asked o r)
  attempt_fails-IsCounted false o r a i = catch_error-IsCounted o r a i
  attempt_fails-IsCounted true nothing r a i = catch_error-IsCounted nothing r a i
  attempt_fails-IsCounted true (failure e) r a i =
      elim (Bool-cases (can_retry e.status_code codes)) [
        | inl can ↦ rw can (wait_retry-IsCounted r a i)
        | inr cannot ↦ rw cannot (catch_error-IsCounted (failure e) r a i)
      ]

  handle-IsCounted :
      (p : Phase) (e : Event) (r : Request)
      → r.phase ≡ p
      → r.started ≡ r.retried + 1
      → IsCountedIn p r
      → IsCounted (handle status codes p e r)
  unfolding handle_error
  handle-IsCounted running succeeds r h a (s, f, t, o) = record {
    attempts = a;
    counted = (ground (arith, s, t), f);
  }
  handle-IsCounted running completes r h a (s, f, t, o) = record {
    attempts = a;
    counted = (ground (arith, s, t), f);
  }
  handle-IsCounted running (fails asked e) r h a i =
      attempt_fails-IsCounted asked (handle_error status e) r a i
  handle-IsCounted running (times_out m) r h a i =
      catch_error-IsCounted (handle_error status (timed_out m)) r a i
  handle-IsCounted waiting fires r h a (s, f, t, o) = record {
    attempts = omega (arith, a);
    counted = (omega (arith, s), f, refl, o);
  }
  handle-IsCounted waiting (times_out m) r h a (s, f, t, o) = record {
    attempts = a;
    counted = (ground (arith, s, t), ground (arith, f, t));
  }
  handle-IsCounted running fires r h a i = record {
    attempts = a;
    counted = subst (λ p. IsCountedIn p r) (sym h) i;
  }
  handle-IsCounted waiting succeeds r h a i = record {
    attempts = a;
    counted = subst (λ p. IsCountedIn p r) (sym h) i;
  }
  handle-IsCounted waiting completes r h a i = record {
    attempts = a;
    counted = subst (λ p. IsCountedIn p r) (sym h) i;
  }
  handle-IsCounted waiting (fails asked e) r h a i = record {
    attempts = a;
    counted = subst (λ p. IsCountedIn p r) (sym h) i;
  }
  handle-IsCounted finished e r h a i = record {
    attempts = a;
    counted = subst (λ p. IsCountedIn p r) (sym h) i;
  }

  run-IsCounted : (r : Request) (es : List Event) → IsCounted r → IsCounted (run status codes r es)
  unfolding run
  run-IsCounted r [] i = i
  run-IsCounted r (e ∷ es) i =
      run-IsCounted (step status codes r e) es
        (handle-IsCounted r.phase e r refl i.attempts i.counted)

  -- Whatever happens to a gRPC request, in any order: one timer is started for each attempt, and all but
  -- the one of an attempt under way are ended, each once; and one failure is counted for each retry, one for
  -- a wait that no retry has followed, and one for an error that the request ends with, where a call that
  -- ends without a value is none; nothing else is counted.
  pub run-new_request-IsCounted : (es : List Event) → IsCounted (run status codes new_request es)
  run-new_request-IsCounted es =
      run-IsCounted new_request es (record { attempts = refl; counted = (refl, refl, refl, refl) })
