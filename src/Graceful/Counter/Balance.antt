-- ===== src/Graceful/Counter/Balance.antt =====
-- The counter and the gauge against the promises that have not settled.
use demo_hybrid_microservice.Common.{
  ℕ, suc, ◌+◌, ◌≡◌, refl, Bool, true, false, ◌&&◌, List, [], ◌∷◌, some, ℤ, pos, arith, increment_ℤ,
  decrement_ℤ, if◌then◌else◌, ◌==◌, str_eq, count_by, count_by-append, inl, inr, Bool-cases,
  Option-cases,
}
use demo_hybrid_microservice.Graceful.Counter.{
  CountType, Metric, gauge_increment, gauge_decrement, duration_observe, CountHandler, increment,
  failure_metric, decrement, Response, returns, throws, promises, Call, Process, boot,
  on_module_init, optional_increment, optional_decrement, wrapped_method, find_call, remove_call,
  settle_call, settle, Event, init, call, settles, step, run,
}

abbrev pub is_bound : Call → Bool
is_bound c = c.bound

-- How many calls the process must still wait for.
abbrev pub active : List Call → ℕ
active cs = count_by is_bound cs

abbrev pub same_labels : CountType → CountType → Bool
same_labels a b = str_eq a.service b.service && str_eq a.method b.method

abbrev pub is_increment : CountType → Metric → Bool
is_increment m (gauge_increment n) = same_labels m n
is_increment m _ = false

abbrev pub is_decrement : CountType → Metric → Bool
is_decrement m (gauge_decrement n) = same_labels m n
is_decrement m _ = false

abbrev pub active_at : CountType → List Call → ℕ
active_at m cs = count_by (λ c. c.bound && same_labels m c.labels) cs

-- The counter is the number of bound calls in flight, and so is the gauge at each pair of labels.
pub record IsBalanced (p : Process) : Type 0 where
  pub counted : p.handler.total ≡ pos (active p.pending)
  pub gauged :
      (m : CountType)
      → count_by (is_increment m) p.handler.metrics
        ≡ count_by (is_decrement m) p.handler.metrics + active_at m p.pending

-- Taking the settled call out of the list takes it out of every count.
pub count_by-remove_call :
    (q : Call → Bool) (id : ℕ) (cs : List Call) (c : Call)
    → find_call id cs ≡ some c
    → count_by q cs ≡ count_by q (c ∷ remove_call id cs)
unfolding find_call remove_call
count_by-remove_call q id [] c e = ground arith
count_by-remove_call q id (x ∷ cs) c e = elim (Bool-cases (x.id == id)) [
  | inl same ↦ rw same (ground arith)
  | inr other ↦ rw other (ground (arith, count_by-remove_call q id cs c))
]

-- What each operation of the handler adds to the counts of metrics.
abbrev labelled : CountType → CountType → ℕ
labelled n m = if same_labels n m then 1 else 0

increment_counts :
    (n : CountType) (h : CountHandler) (m : CountType)
    → (count_by (is_increment n) (increment h m).metrics
        ≡ count_by (is_increment n) h.metrics + labelled n m)
      × (count_by (is_decrement n) (increment h m).metrics ≡ count_by (is_decrement n) h.metrics)
unfolding increment
increment_counts n h m = (
  ground (arith, count_by-append (is_increment n) h.metrics (gauge_increment m ∷ [])),
  ground (arith, count_by-append (is_decrement n) h.metrics (gauge_increment m ∷ [])),
)

decrement_counts :
    (n : CountType) (h : CountHandler) (m : CountType) (d : ℤ) (ok : Bool)
    → (count_by (is_increment n) (decrement h m d ok).metrics ≡ count_by (is_increment n) h.metrics)
      × (count_by (is_decrement n) (decrement h m d ok).metrics
          ≡ count_by (is_decrement n) h.metrics + labelled n m)
unfolding decrement
decrement_counts n h m d ok =
    let added : List Metric = gauge_decrement m ∷ duration_observe m d ∷ failure_metric ok m in
    (
      ground (arith, count_by-append (is_increment n) h.metrics added),
      ground (arith, count_by-append (is_decrement n) h.metrics added),
    )

pub increment-total :
    (h : CountHandler) (m : CountType) → (increment h m).total ≡ increment_ℤ h.total
unfolding increment
increment-total h m = refl

decrement-total :
    (h : CountHandler) (m : CountType) (d : ℤ) (ok : Bool)
    → (decrement h m d ok).total ≡ decrement_ℤ h.total
unfolding decrement
decrement-total h m d ok = refl

-- The handler alone: `k` calls are open in all, and `g n` of them at the labels `n`.
record Holds (h : CountHandler) (k : ℕ) (g : CountType → ℕ) : Type 0 where
  total : h.total ≡ pos k
  gauge :
      (n : CountType)
      → count_by (is_increment n) h.metrics ≡ count_by (is_decrement n) h.metrics + g n

increment-Holds :
    (h : CountHandler) (m : CountType) (k : ℕ) (g : CountType → ℕ)
    → Holds h k g
    → Holds (increment h m) (suc k) (λ n. labelled n m + g n)
increment-Holds h m k g b = record {
  total = ground (arith, increment-total h m, b.total);
  gauge = λ n. omega (arith, increment_counts n h m, b.gauge n);
}

decrement-Holds :
    (h : CountHandler) (m : CountType) (d : ℤ) (ok : Bool) (k : ℕ) (g : CountType → ℕ)
    → Holds h (suc k) (λ n. labelled n m + g n)
    → Holds (decrement h m d ok) k g
decrement-Holds h m d ok k g b = record {
  total = ground (arith, decrement-total h m d ok, b.total);
  gauge = λ n. omega (arith, decrement_counts n h m d ok, b.gauge n);
}

on_module_init-IsBalanced : (p : Process) → IsBalanced p → IsBalanced (on_module_init p)
unfolding on_module_init
on_module_init-IsBalanced p b = record { counted = b.counted; gauged = b.gauged }

to_Holds :
    (p : Process) → IsBalanced p → Holds p.handler (active p.pending) (λ n. active_at n p.pending)
to_Holds p b = record { total = b.counted; gauge = b.gauged }

-- A call that ends at once, bound or not.
sync_Holds :
    (bound : Bool) (h : CountHandler) (m : CountType) (d : ℤ) (ok : Bool) (k : ℕ)
    (g : CountType → ℕ)
    → Holds h k g
    → Holds (optional_decrement bound (optional_increment bound h m) m d ok) k g
unfolding optional_decrement optional_increment
sync_Holds true h m d ok k g b =
    decrement-Holds (increment h m) m d ok k g (increment-Holds h m k g b)
sync_Holds false h m d ok k g b = b

-- A call that goes on: the counts are those of the list with the new call in front.
async_Holds :
    (bound : Bool) (h : CountHandler) (m : CountType) (k : ℕ) (g : CountType → ℕ)
    → Holds h k g
    → Holds
        (optional_increment bound h m)
        (if bound then suc k else k)
        (λ n. if bound && same_labels n m then suc (g n) else g n)
unfolding optional_increment
async_Holds true h m k g b =
    let t = increment-Holds h m k g b in
    record { total = t.total; gauge = λ n. ground (arith, t.gauge n) }
async_Holds false h m k g b = record { total = b.total; gauge = b.gauge }

-- And the settling of one that was in the list.
settled_Holds :
    (bound : Bool) (h : CountHandler) (m : CountType) (d : ℤ) (ok : Bool) (k : ℕ)
    (g : CountType → ℕ)
    → Holds h
        (if bound then suc k else k)
        (λ n. if bound && same_labels n m then suc (g n) else g n)
    → Holds (optional_decrement bound h m d ok) k g
unfolding optional_decrement
settled_Holds true h m d ok k g b =
    decrement-Holds h m d ok k g
      (record { total = b.total; gauge = λ n. ground (arith, b.gauge n) })
settled_Holds false h m d ok k g b = record { total = b.total; gauge = b.gauge }

wrapped_method-IsBalanced :
    (m : CountType) (r : Response) (start now : ℕ) (p : Process)
    → IsBalanced p
    → IsBalanced (wrapped_method m r start now p)
unfolding wrapped_method
wrapped_method-IsBalanced m returns start now p b =
    let t = sync_Holds p.ready p.handler m _ true _ _ (to_Holds p b) in
    record { counted = t.total; gauged = t.gauge }
wrapped_method-IsBalanced m throws start now p b =
    let t = sync_Holds p.ready p.handler m _ false _ _ (to_Holds p b) in
    record { counted = t.total; gauged = t.gauge }
wrapped_method-IsBalanced m (promises id) start now p b =
    let t = async_Holds p.ready p.handler m _ _ (to_Holds p b) in
    record { counted = t.total; gauged = t.gauge }

settle-IsBalanced :
    (id now : ℕ) (ok : Bool) (p : Process) → IsBalanced p → IsBalanced (settle id now ok p)
unfolding settle
settle-IsBalanced id now ok p b = elim (Option-cases (find_call id p.pending)) [
  | inl missed ↦ rw (missed, settle_call) b
  | inr (c, found) ↦
      let t = settled_Holds c.bound p.handler c.labels _ ok _ _ (record {
        total = rw (← count_by-remove_call is_bound id p.pending c found) b.counted;
        gauge = λ n.
            rw
              (← count_by-remove_call (λ x. x.bound && same_labels n x.labels) id p.pending c found)
              (b.gauged n);
      }) in
      rw (found, settle_call) (record { counted = t.total; gauged = t.gauge })
]

pub step-IsBalanced : (p : Process) (e : Event) → IsBalanced p → IsBalanced (step p e)
unfolding step
step-IsBalanced p init b = on_module_init-IsBalanced p b
step-IsBalanced p (call m r start now) b = wrapped_method-IsBalanced m r start now p b
step-IsBalanced p (settles id now ok) b = settle-IsBalanced id now ok p b

run-IsBalanced : (p : Process) (es : List Event) → IsBalanced p → IsBalanced (run p es)
unfolding run
run-IsBalanced p [] b = b
run-IsBalanced p (e ∷ es) b = run-IsBalanced (step p e) es (step-IsBalanced p e b)

boot-IsBalanced : IsBalanced boot
boot-IsBalanced = record { counted = refl; gauged = λ m. refl }

-- After any sequence of decorated calls, returns, throws and settled promises, the counter is the
-- number of bound calls whose promise has not settled, and for each service and method the gauge
-- was incremented as often as it was decremented plus the number of such calls at those labels.
pub run-boot-IsBalanced : (es : List Event) → IsBalanced (run boot es)
run-boot-IsBalanced es = run-IsBalanced boot es boot-IsBalanced
