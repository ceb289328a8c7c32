-- ===== src/Graceful/Counter/Emissions.antt =====
-- What the subscriber of the counter's `BehaviorSubject` is given by each event.
use demo_hybrid_microservice.Common.{
  ℕ, ◌≡◌, Bool, true, false, List, [], ◌∷◌, ◌++◌, ℤ, pos, is_zero_ℤ, increment_ℤ, decrement_ℤ, ◌||◌,
  arith, any_of, Option-cases, inl, inr,
}
use demo_hybrid_microservice.Graceful.Counter.{
  CountHandler, increment, decrement, Process, Event, init, call, settles, returns, throws,
  promises, wrapped_method, settle, optional_increment, optional_decrement, find_call, settle_call,
  on_module_init, step, CountType,
}
use demo_hybrid_microservice.Graceful.Counter.Balance.{IsBalanced, increment-total}

abbrev pub has_zero : List ℤ → Bool
has_zero vs = any_of is_zero_ℤ vs

-- The value that the subject holds is among those that it has emitted.
pub record Emitted (h : CountHandler) : Type 0 where
  pub current : is_zero_ℤ h.total ≡ true → has_zero h.published ≡ true

has_zero-append : (vs : List ℤ) (v : ℤ) → has_zero (vs ++ v ∷ []) ≡ (has_zero vs || is_zero_ℤ v)
has_zero-append [] v = ground arith
has_zero-append (w ∷ vs) v = ground (arith, has_zero-append vs v)

increment-has_zero :
    (h : CountHandler) (m : CountType) (k : ℕ)
    → h.total ≡ pos k
    → has_zero (increment h m).published ≡ has_zero h.published
unfolding increment
increment-has_zero h m k e = ground (arith, has_zero-append h.published (increment_ℤ h.total))

decrement-has_zero :
    (h : CountHandler) (m : CountType) (d : ℤ) (ok : Bool)
    → has_zero (decrement h m d ok).published
      ≡ (has_zero h.published || is_zero_ℤ (decrement h m d ok).total)
unfolding decrement
decrement-has_zero h m d ok = has_zero-append h.published (decrement_ℤ h.total)

-- A call that ends at once.
sync-has_zero :
    (bound : Bool) (h : CountHandler) (m : CountType) (d : ℤ) (ok : Bool) (k : ℕ)
    → h.total ≡ pos k
    → Emitted h
    → has_zero (optional_decrement bound (optional_increment bound h m) m d ok).published ≡ (
        has_zero h.published
        || is_zero_ℤ (optional_decrement bound (optional_increment bound h m) m d ok).total)
unfolding optional_decrement optional_increment
sync-has_zero true h m d ok k e c =
    ground (arith, decrement-has_zero (increment h m) m d ok, increment-has_zero h m k e)
sync-has_zero false h m d ok k e c = ground (arith, c.current)

-- A call that goes on.
async-has_zero :
    (bound : Bool) (h : CountHandler) (m : CountType) (k : ℕ)
    → h.total ≡ pos k
    → Emitted h
    → has_zero (optional_increment bound h m).published
      ≡ (has_zero h.published || is_zero_ℤ (optional_increment bound h m).total)
unfolding optional_increment
async-has_zero true h m k e c = ground (arith, increment-has_zero h m k e, increment-total h m)
async-has_zero false h m k e c = ground (arith, c.current)

settle-has_zero :
    (bound : Bool) (h : CountHandler) (m : CountType) (d : ℤ) (ok : Bool)
    → Emitted h
    → has_zero (optional_decrement bound h m d ok).published
      ≡ (has_zero h.published || is_zero_ℤ (optional_decrement bound h m d ok).total)
unfolding optional_decrement
settle-has_zero true h m d ok c = decrement-has_zero h m d ok
settle-has_zero false h m d ok c = ground (arith, c.current)

-- After each event the emitted values hold a 0 if they did before or if the counter is 0 now.
pub step-has_zero :
    (p : Process) (e : Event)
    → IsBalanced p
    → Emitted p.handler
    → has_zero (step p e).handler.published
      ≡ (has_zero p.handler.published || is_zero_ℤ (step p e).handler.total)
unfolding step wrapped_method on_module_init settle
step-has_zero p init b c = ground (arith, c.current)
step-has_zero p (call m returns start now) b c =
    sync-has_zero p.ready p.handler m _ true _ b.counted c
step-has_zero p (call m throws start now) b c =
    sync-has_zero p.ready p.handler m _ false _ b.counted c
step-has_zero p (call m (promises id) start now) b c =
    async-has_zero p.ready p.handler m _ b.counted c
step-has_zero p (settles id now ok) b c = elim (Option-cases (find_call id p.pending)) [
  | inl missed ↦ rw (missed, settle_call) (ground (arith, c.current))
  | inr (x, found) ↦ rw (found, settle_call) (settle-has_zero x.bound p.handler x.labels _ ok c)
]

pub step-Emitted :
    (p : Process) (e : Event) → IsBalanced p → Emitted p.handler → Emitted (step p e).handler
step-Emitted p e b c = record { current = λ z. ground (arith, step-has_zero p e b c) }
