-- ===== src/Rabbit/Client/Channels.antt =====
-- A RabbitMQ client that is not closed has a channel when a request goes on.
use demo_hybrid_microservice.Common.{
  ℕ, zero, suc, ◌≡◌, refl, sym, String, Bool, true, false, List, [], ◌∷◌, ◌++◌, Option, none, some,
  any_of, all_of-append, Bool-cases, inl, inr, arith,
}
use demo_hybrid_microservice.Rabbit.Client.{
  Promise, Job, published, failed, Client, Event, called, on_called, connects, disconnects, errors,
  connect_fails, set_up_ends, goes_on, close_called, close_ends, new_client, gives_up, settled,
  dispatch, go_on, go_on_at, when_client, step, run,
}
use demo_hybrid_microservice.Rabbit.Client.Ready.{
  is_no_channel, is_close, has, fits, fits_all, IsReady, tell-IsReady, connect-IsReady,
  connect_listener-IsReady, stream_connects-IsReady, stream_fails-IsReady,
  disconnect_listener-IsReady, set_up-IsReady, making_ends-IsReady, on-IsReady, settled-has,
}

waiting-IsReady :
    (ws : List (Promise × Job)) (s : Client)
    → fits_all (has s.channel) ws ≡ true
    → IsReady s
    → IsReady (record s { waiting = ws })
waiting-IsReady ws s f i = record {
  quiet = i.quiet;
  opened = i.opened;
  initial = i.initial;
  promised = i.promised;
  streamed = i.streamed;
  ended = i.ended;
  waits = f;
}

dispatch-IsReady :
    (job : Job) (c : Option ℕ) (s : Client) → has c ≡ true → IsReady s → IsReady (dispatch job c s)
dispatch-IsReady none c s h i = i
dispatch-IsReady (some call) none s h i = ground (arith, h)
dispatch-IsReady (some call) (some c) s h i = tell-IsReady (published c call) s refl i

go_on-IsReady :
    (p : Promise) (o : Option (Option String)) (job : Job) (rest : List (Promise × Job))
    (s : Client)
    → o ≡ settled p s
    → fits (has s.channel) p ≡ true
    → fits_all (has s.channel) rest ≡ true
    → IsReady s
    → IsReady (go_on o job rest s)
go_on-IsReady p none job rest s same f g i = i
go_on-IsReady p (some (some e)) job rest s same f g i =
    tell-IsReady (failed e) _ refl (waiting-IsReady rest s g i)
go_on-IsReady p (some none) job rest s same f g i =
    dispatch-IsReady job s.channel _ (settled-has p s i.ended f (sym same))
      (waiting-IsReady rest s g i)

go_on_at-IsReady :
    (n : ℕ) (before after : List (Promise × Job)) (s : Client)
    → fits_all (has s.channel) before ≡ true
    → fits_all (has s.channel) after ≡ true
    → IsReady s
    → IsReady (go_on_at n before after s)
go_on_at-IsReady n before [] s f g i = i
go_on_at-IsReady zero before ((p, job) ∷ after) s f g i =
    go_on-IsReady p (settled p s) job (before ++ after) s refl (ground (arith, g))
      (ground (arith, f, g, all_of-append (λ (q, j). fits (has s.channel) q) before after)) i
go_on_at-IsReady (suc n) before ((p, job) ∷ after) s f g i =
    go_on_at-IsReady n (before ++ (p, job) ∷ []) after s
      (ground
        (arith, f, g, all_of-append (λ (q, j). fits (has s.channel) q) before ((p, job) ∷ [])))
      (ground (arith, g)) i

module _ (urls : List String) where
  when_client-IsReady :
      (b : Bool) (e : Event) (s : Client) → IsReady s → IsReady (when_client urls b e s)
  when_client-IsReady false e s i = i
  when_client-IsReady true connects s i =
      stream_connects-IsReady _ _ refl
        (connect_listener-IsReady s.is_initial_connect s.channel s refl refl i)
  when_client-IsReady true (disconnects e) s i =
      stream_fails-IsReady s.stream e _ (disconnect_listener-IsReady s.is_initial_connect e s i)
  when_client-IsReady true (connect_fails url e) s i = elim (Bool-cases (gives_up urls url)) [
    | inl last ↦ rw last (stream_fails-IsReady s.stream e s i)
    | inr more ↦ rw more i
  ]
  when_client-IsReady true (errors e) s i = stream_fails-IsReady s.stream e s i
  when_client-IsReady true (called job) s i = i
  when_client-IsReady true (on_called c) s i = i
  when_client-IsReady true (set_up_ends c) s i = i
  when_client-IsReady true (goes_on n) s i = i
  when_client-IsReady true close_called s i = i
  when_client-IsReady true close_ends s i = i

  step-IsReady : (e : Event) (s : Client) → is_close e ≡ false → IsReady s → IsReady (step urls e s)
  unfolding step
  step-IsReady (called job) s h i = connect-IsReady s.client job s refl i
  step-IsReady (on_called c) s h i = on-IsReady s.client c s i
  step-IsReady (set_up_ends c) s h i =
      making_ends-IsReady c s.stream _ refl (set_up-IsReady (c ∷ s.set_up) s i)
  step-IsReady (goes_on n) s h i = go_on_at-IsReady n [] s.waiting s refl i.waits i
  step-IsReady close_called s h i = ground (arith, h)
  step-IsReady close_ends s h i = simp (i.opened) i
  step-IsReady connects s h i = when_client-IsReady s.client connects s i
  step-IsReady (disconnects e) s h i = when_client-IsReady s.client (disconnects e) s i
  step-IsReady (connect_fails u e) s h i = when_client-IsReady s.client (connect_fails u e) s i
  step-IsReady (errors e) s h i = when_client-IsReady s.client (errors e) s i

  run-IsReady :
      (es : List Event) (s : Client)
      → any_of is_close es ≡ false
      → IsReady s
      → IsReady (run urls es s)
  unfolding run
  run-IsReady [] s h i = i
  run-IsReady (e ∷ es) s h i =
      run-IsReady es (step urls e s) (ground (arith, h)) (step-IsReady e s (ground (arith, h)) i)

  -- Unless a RabbitMQ client is closed, then whatever happens to its connection, in any order, no
  -- request whose promise of a connection is fulfilled finds that there is no channel.
  pub run-new_client-has_channel :
      (es : List Event)
      → any_of is_close es ≡ false
      → any_of is_no_channel (run urls es new_client).log ≡ false
  run-new_client-has_channel es h =
      let start : IsReady new_client = record {
        quiet = refl;
        opened = refl;
        initial = refl;
        promised = refl;
        streamed = refl;
        ended = refl;
        waits = refl;
      } in
      let i = run-IsReady es new_client h start in i.quiet
