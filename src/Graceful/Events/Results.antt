-- ===== src/Graceful/Events/Results.antt =====
-- What a shutdown event reports of its subscribers.
use demo_hybrid_microservice.Common.{
  ℕ, suc, ◌+◌, ◌≡◌, refl, ◌↔◌, String, Bool, true, false, not, List, [], ◌∷◌, ◌++◌, map,
  if◌then◌else◌, ◌==◌, arith, filter_by, length, count_by, append-nil, append_assoc, sym, ap, ◌∙◌,
  all_of, ◌≢◌,
}
use demo_hybrid_microservice.Graceful.Events.{
  ShutdownEvent, Outcome, completes, throws, OnEvent, ResolveEvent, get_handlers_by_event,
  resolve_outcome, handle_event, total_stats, processing_event, success, failure, detail_line, emit,
}

abbrev pub throwing : Outcome → Bool
throwing completes = false
throwing (throws m) = true

abbrev pub fails : OnEvent → Bool
fails h = throwing h.outcome

handled : (h : OnEvent) → (handle_event h).is_success ≡ not (fails h)
unfolding handle_event
handled h = by_outcome h.outcome
  where
    by_outcome : (o : Outcome) → (resolve_outcome h o).is_success ≡ not (throwing o)
    by_outcome completes = refl
    by_outcome (throws m) = refl

total_stats-failed :
    (failed : ℕ) (details : List ResolveEvent) (hs : List OnEvent)
    → (total_stats (failed, details) (map handle_event hs)).0 ≡ failed + count_by fails hs
unfolding total_stats
total_stats-failed failed details [] = omega arith
total_stats-failed failed details (h ∷ hs) =
    total_stats-failed (if (handle_event h).is_success then failed else failed + 1)
      (details ++ handle_event h ∷ []) hs
    ∙ counts h h.outcome refl
  where
    counts :
        (x : OnEvent) (o : Outcome)
        → x.outcome ≡ o
        → (if (handle_event x).is_success then failed else failed + 1) + count_by fails hs
          ≡ failed + count_by fails (x ∷ hs)
    counts x completes q = ground (arith, handled x)
    counts x (throws m) q = ground (arith, handled x)

total_stats-details :
    (failed : ℕ) (details rs : List ResolveEvent)
    → (total_stats (failed, details) rs).1 ≡ details ++ rs
unfolding total_stats
total_stats-details failed details [] = sym (append-nil details)
total_stats-details failed details (r ∷ rs) =
    total_stats-details (if r.is_success then failed else failed + 1) (details ++ r ∷ []) rs
    ∙ append_assoc details (r ∷ []) rs

length-handled : (hs : List OnEvent) → length (map handle_event hs) ≡ length hs
length-handled [] = refl
length-handled (h ∷ hs) = ap suc (length-handled hs)

none_fails : (hs : List OnEvent) → (count_by fails hs ≡ 0) ↔ (all_of (λ h. not (fails h)) hs ≡ true)
none_fails [] = ground arith
none_fails (h ∷ hs) = ground (arith, none_fails hs)

is_zero_iff : (n m : ℕ) → n ≡ 0 + m → ((n == 0) ≡ true) ↔ (m ≡ 0)
is_zero_iff n m e = ground arith

-- Every subscriber of the event, and no other, is called once, in order; the results count those
-- that throw, and `isSuccess` says that there is none.
processing_event_lem :
    (hs : List OnEvent) (e : ShutdownEvent)
    → let called = get_handlers_by_event hs e in
      let results = processing_event hs e in
      (results.details ≡ map handle_event called)
      × (results.total ≡ length called)
      × (results.failed ≡ count_by fails called)
      × ((results.is_success ≡ true) ↔ (all_of (λ h. not (fails h)) called ≡ true))
unfolding processing_event
processing_event_lem hs e =
    let called = get_handlers_by_event hs e in
    let failed = total_stats-failed 0 [] called in
    (
      total_stats-details 0 [] (map handle_event called),
      length-handled called,
      omega (arith, failed),
      (
        (λ h. (none_fails called).0 ((is_zero_iff _ _ failed).0 h)),
        (λ h. (is_zero_iff _ _ failed).1 ((none_fails called).1 h)),
      ),
    )

length-lines :
    (hs : List OnEvent)
    → length (map detail_line (filter_by (λ r. not r.is_success) (map handle_event hs)))
      ≡ count_by fails hs
length-lines [] = refl
length-lines (h ∷ hs) = ground (arith, handled h, length-lines hs)

-- If no subscriber of the event throws, `emit` reports a success with their number.
emit_success :
    (hs : List OnEvent) (e : ShutdownEvent)
    → count_by fails (get_handlers_by_event hs e) ≡ 0
    → emit hs e ≡ success (length (get_handlers_by_event hs e))
unfolding emit
emit_success hs e z =
    ground (arith, processing_event_lem hs e, none_fails (get_handlers_by_event hs e))

-- If some subscriber of the event throws, `emit` does not throw but reports the failure, with one line
-- for each subscriber that does.
emit_failure :
    (hs : List OnEvent) (e : ShutdownEvent)
    → count_by fails (get_handlers_by_event hs e) ≢ 0
    → (lines : List String) × (emit hs e ≡ failure (processing_event hs e) lines)
      × (length lines ≡ count_by fails (get_handlers_by_event hs e))
unfolding emit
emit_failure hs e z =
    let l = processing_event_lem hs e in
    (
      map detail_line (filter_by (λ r. not r.is_success) (processing_event hs e).details),
      ground (arith, l, none_fails (get_handlers_by_event hs e)),
      rw l.0 (length-lines (get_handlers_by_event hs e)),
    )
