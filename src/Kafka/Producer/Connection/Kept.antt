-- ===== src/Kafka/Producer/Connection/Kept.antt =====
-- No producer is lost: the ones that a client has had were told to disconnect.
use demo_hybrid_microservice.Common.{
  ℕ, zero, suc, ◌<◌, ◌≡◌, refl, String, Bool, true, false, ◌||◌, ◌&&◌, List, [], ◌∷◌, ◌++◌, Option,
  none, some, ◌==◌, if◌then◌else◌, arith,
}
use demo_hybrid_microservice.Kafka.Producer.Connection.{
  Job, Effect, connecting, disconnecting, handed, failed, Proxy, Event, called, refused,
  connect_ends, turn, close_called, close_ends, new_proxy, tell, connect, connect_ended, dispatch,
  go_on, disconnect, close_ended, step, run,
}

-- A producer is told to disconnect.
abbrev pub is_told : ℕ → List Effect → Bool
is_told p [] = false
is_told p (disconnecting q ∷ es) = p == q || is_told p es
is_told p (_ ∷ es) = is_told p es

is_told-append :
    (p : ℕ) (xs ys : List Effect) → is_told p (xs ++ ys) ≡ (is_told p xs || is_told p ys)
is_told-append p [] ys = refl
is_told-append p (connecting q ∷ xs) ys = is_told-append p xs ys
is_told-append p (disconnecting q ∷ xs) ys = ground (arith, is_told-append p xs ys)
is_told-append p (handed q r ∷ xs) ys = is_told-append p xs ys
is_told-append p (failed e ∷ xs) ys = is_told-append p xs ys

-- The client's own producer.
abbrev pub is_own : ℕ → Option ℕ → Bool
is_own p none = false
is_own p (some q) = p == q

-- Every producer is the client's own or was told to disconnect, and while a close waits, so was its own.
pub record IsKept (s : Proxy) : Type 0 where
  pub kept : (p : ℕ) → p < s.created → (is_own p s.producer || is_told p s.log) ≡ true
  pub closes : (p : ℕ) → 0 < s.closing → is_own p s.producer ≡ true → is_told p s.log ≡ true

-- Nothing is called while a close waits.
abbrev pub is_call : Event → Bool
is_call (called job) = true
is_call _ = false

abbrev pub is_calm : List Event → Proxy → Bool
is_calm [] s = true
is_calm (e ∷ es) s =
    let rest = is_calm es (step e s) in (if is_call e then s.closing == 0 else true) && rest

tell-IsKept : (e : Effect) (s : Proxy) → IsKept s → IsKept (tell e s)
tell-IsKept e s i = record {
  kept = λ p h. ground (arith, i.kept p h, is_told-append p s.log (e ∷ []));
  closes = λ p h o. ground (arith, i.closes p h o, is_told-append p s.log (e ∷ []));
}

go_on-IsKept : (jobs : List Job) (s : Proxy) → IsKept s → IsKept (go_on jobs s)
go_on-IsKept [] s i = i
go_on-IsKept (none ∷ jobs) s i = record { kept = i.kept; closes = i.closes }
go_on-IsKept (some r ∷ jobs) s i =
    tell-IsKept (dispatch r s.producer) _ (record { kept = i.kept; closes = i.closes })

connect_ended-IsKept :
    (p : ℕ) (outcome : Option String) (job : Option Job) (ws : List (ℕ × Job)) (s : Proxy)
    → IsKept s
    → IsKept (connect_ended p outcome job ws s)
connect_ended-IsKept p outcome none ws s i = i
connect_ended-IsKept p none (some job) ws s i = record { kept = i.kept; closes = i.closes }
connect_ended-IsKept p (some e) (some job) ws s i =
    tell-IsKept (failed e) _ (record { kept = i.kept; closes = i.closes })

connect-IsKept :
    (job : Job) (o : Option ℕ) (s : Proxy)
    → o ≡ s.producer
    → s.closing ≡ 0
    → IsKept s
    → IsKept (connect job o s)
connect-IsKept job (some p) s same idle i = record { kept = i.kept; closes = i.closes }
connect-IsKept job none s same idle i = record {
  kept = λ p h. ground (arith, i.kept p, same, is_told-append p s.log (connecting s.created ∷ []));
  closes = λ p h o. ground (arith, idle, h);
}

close-IsKept :
    (o : Option ℕ) (s : Proxy)
    → o ≡ s.producer
    → IsKept s
    → IsKept (disconnect o (record s { closing = suc s.closing }))
close-IsKept none s same i = record { kept = i.kept; closes = λ p h o. ground (arith, same, o) }
close-IsKept (some q) s same i = record {
  kept = λ p h. ground (arith, i.kept p h, is_told-append p s.log (disconnecting q ∷ []));
  closes = λ p h o. ground (arith, same, o, is_told-append p s.log (disconnecting q ∷ []));
}

close_ended-IsKept :
    (n : ℕ) (outcome : Option String) (s : Proxy)
    → n ≡ s.closing
    → IsKept s
    → IsKept (close_ended n outcome s)
close_ended-IsKept zero outcome s same i = i
close_ended-IsKept (suc n) none s same i = record {
  kept = λ p h. ground (arith, i.kept p h, i.closes p, same);
  closes = λ p h o. ground (arith, o);
}
close_ended-IsKept (suc n) (some e) s same i =
    tell-IsKept (failed e) _
      (record { kept = i.kept; closes = λ p h o. i.closes p (omega (arith, same)) o })

step-IsKept :
    (e : Event) (s : Proxy)
    → (if is_call e then s.closing == 0 else true) ≡ true
    → IsKept s
    → IsKept (step e s)
unfolding step
step-IsKept (called job) s h i = connect-IsKept job s.producer s refl (ground (arith, h)) i
step-IsKept refused s h i = tell-IsKept (failed "InvalidMessageException") s i
step-IsKept (connect_ends p outcome) s h i = connect_ended-IsKept p outcome _ _ s i
step-IsKept turn s h i = go_on-IsKept s.ready s i
step-IsKept close_called s h i = close-IsKept s.producer s refl i
step-IsKept (close_ends outcome) s h i = close_ended-IsKept s.closing outcome s refl i

run-IsKept : (es : List Event) (s : Proxy) → is_calm es s ≡ true → IsKept s → IsKept (run es s)
unfolding run
run-IsKept [] s h i = i
run-IsKept (e ∷ es) s h i =
    run-IsKept es (step e s) (ground (arith, h)) (step-IsKept e s (ground (arith, h)) i)

-- If nothing is called while a close is under way, then however connections, requests and closes
-- follow each other, every producer that a client has created is its own one or was told to disconnect.
pub run-new_proxy-kept :
    (es : List Event) (p : ℕ)
    → is_calm es new_proxy ≡ true
    → p < (run es new_proxy).created
    → (is_own p (run es new_proxy).producer || is_told p (run es new_proxy).log) ≡ true
run-new_proxy-kept es p h below =
    let from_start : IsKept new_proxy = record {
      kept = λ p h. ground (arith, h);
      closes = λ p h o. ground (arith, h);
    } in
    let i = run-IsKept es new_proxy h from_start in i.kept p below
