-- ===== src/Kafka/Producer/Connection/Stuck.antt =====
-- A client whose first connection fails.
use demo_hybrid_microservice.Common.{
  ℕ, ◌≡◌, refl, ap, String, Bool, true, false, not, List, [], ◌∷◌, ◌++◌, Option, none, some, Result,
  ok, error, all_of, arith,
}
use demo_hybrid_microservice.Kafka.Producer.{ProducerRecord}
use demo_hybrid_microservice.Kafka.Producer.Connection.{
  Job, Effect, connecting, disconnecting, handed, failed, Proxy, Event, called, refused,
  connect_ends, turn, close_called, close_ends, new_proxy, tell, connect, dispatch, go_on, step,
  run,
}

abbrev pub is_close : Event → Bool
is_close close_called = true
is_close _ = false

-- The producers whose `connect` is called, in order.
abbrev pub connects : List Effect → List ℕ
connects [] = []
connects (connecting p ∷ es) = p ∷ connects es
connects (_ ∷ es) = connects es

connects-append : (xs ys : List Effect) → connects (xs ++ ys) ≡ connects xs ++ connects ys
connects-append [] ys = refl
connects-append (connecting p ∷ xs) ys = ap (◌∷◌ p) (connects-append xs ys)
connects-append (disconnecting p ∷ xs) ys = connects-append xs ys
connects-append (handed p r ∷ xs) ys = connects-append xs ys
connects-append (failed e ∷ xs) ys = connects-append xs ys

pub record IsStuck (s : Proxy) : Type 0 where
  pub keeps : s.producer ≡ some 0
  pub waits : s.waiting ≡ []
  pub open_still : s.closing ≡ 0
  pub unconnected : s.connected ≡ []
  pub tried_once : connects s.log ≡ 0 ∷ []

-- An effect that is no connection changes nothing of this.
tell-IsStuck : (e : Effect) (s : Proxy) → connects (e ∷ []) ≡ [] → IsStuck s → IsStuck (tell e s)
tell-IsStuck e s h i = record {
  keeps = i.keeps;
  waits = i.waits;
  open_still = i.open_still;
  unconnected = i.unconnected;
  tried_once = rw (connects-append s.log (e ∷ []), h, i.tried_once) refl;
}

ready-IsStuck : (jobs : List Job) (s : Proxy) → IsStuck s → IsStuck (record s { ready = jobs })
ready-IsStuck jobs s i = record {
  keeps = i.keeps;
  waits = i.waits;
  open_still = i.open_still;
  unconnected = i.unconnected;
  tried_once = i.tried_once;
}

go_on-IsStuck : (jobs : List Job) (s : Proxy) → IsStuck s → IsStuck (go_on jobs s)
go_on-IsStuck [] s i = i
go_on-IsStuck (none ∷ jobs) s i = ready-IsStuck jobs s i
go_on-IsStuck (some r ∷ jobs) s i =
    tell-IsStuck (dispatch r s.producer) _ (is_silent r s.producer) (ready-IsStuck jobs s i)
  where
    is_silent : (r : Result ProducerRecord) (o : Option ℕ) → connects (dispatch r o ∷ []) ≡ []
    is_silent (error e) o = refl
    is_silent (ok r) none = refl
    is_silent (ok r) (some p) = refl

connect-IsStuck :
    (job : Job) (o : Option ℕ) (s : Proxy) → o ≡ some 0 → IsStuck s → IsStuck (connect job o s)
connect-IsStuck job none s h i = ground (arith, h)
connect-IsStuck job (some p) s h i = ready-IsStuck (s.ready ++ job ∷ []) s i

step-IsStuck : (e : Event) (s : Proxy) → is_close e ≡ false → IsStuck s → IsStuck (step e s)
unfolding step
step-IsStuck (called job) s h i = connect-IsStuck job s.producer s i.keeps i
step-IsStuck refused s h i = tell-IsStuck (failed "InvalidMessageException") s refl i
step-IsStuck (connect_ends p outcome) s h i = simp (i.waits) i
step-IsStuck turn s h i = go_on-IsStuck s.ready s i
step-IsStuck close_called s h i = ground (arith, h)
step-IsStuck (close_ends outcome) s h i = simp (i.open_still) i

run-IsStuck :
    (es : List Event) (s : Proxy)
    → all_of (λ e. not (is_close e)) es ≡ true
    → IsStuck s
    → IsStuck (run es s)
unfolding run
run-IsStuck [] s h i = i
run-IsStuck (e ∷ es) s h i =
    run-IsStuck es (step e s) (ground (arith, h)) (step-IsStuck e s (ground (arith, h)) i)

-- If the first connection of a client fails, then until it is closed no other is tried, whatever is
-- called, and the client keeps the producer that is not connected.
pub failed_connect-IsStuck :
    (job : Job) (e : String) (es : List Event)
    → all_of (λ e. not (is_close e)) es ≡ true
    → IsStuck (run (called job ∷ connect_ends 0 (some e) ∷ es) new_proxy)
unfolding run step
failed_connect-IsStuck job e es h = run-IsStuck es _ h (record {
  keeps = refl;
  waits = refl;
  open_still = refl;
  unconnected = refl;
  tried_once = refl;
})
