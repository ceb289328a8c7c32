-- ===== src/Rabbit/Lifecycle/Attempts.antt =====
-- The limit on connection attempts.
use demo_hybrid_microservice.Common.{
  ℕ, suc, ◌+◌, ◌≤◌, ◌≡◌, refl, String, Bool, true, false, List, [], ◌∷◌, ◌++◌, Option, none, some,
  if◌then◌else◌, count_by, count_by-append, arith, take, Bool-cases, inl, inr,
}
use demo_hybrid_microservice.Rabbit.Lifecycle.{
  RmqStatus, connected, disconnected, crashed, MaxAttempts, at_most, Callback, success,
  consumers_failed, connect_failed, disconnected_from_rmq, Server, new_server, is_empty, Creation,
  all_created, throws_after, call_back, update_status, start, close, run_consumers, first_connect,
  each_connect, on_connect, on_disconnect, count_attempt, attempt_failed, first_failed, on_failed,
  Event, connects, disconnects, connect_fails, closes, emit, step, run,
}

abbrev pub is_connect_failed : Callback → Bool
is_connect_failed (connect_failed e) = true
is_connect_failed _ = false

abbrev pub given_up : Server → ℕ
given_up s = count_by is_connect_failed s.callbacks

-- While the `once` listener is there no attempt has been counted; afterwards at most one.
record Counts (m : MaxAttempts) (s : Server) : Type 0 where
  limit : s.max_attempts ≡ m
  counted : s.connection_attempts + (if s.once_failed then 1 else 0) ≤ 1
  persists : given_up s ≡ 0

call_back-given_up :
    (c : Callback) (s : Server)
    → given_up (call_back c s) ≡ given_up s + (if is_connect_failed c then 1 else 0)
unfolding call_back
call_back-given_up c s = ground (arith, count_by-append is_connect_failed s.callbacks (c ∷ []))

module _ (n : ℕ) where
  abbrev limit_of : MaxAttempts
  limit_of = at_most (suc (suc n))

  call_back-Counts :
      (c : Callback) (s : Server)
      → is_connect_failed c ≡ false
      → Counts limit_of s
      → Counts limit_of (call_back c s)
  unfolding call_back
  call_back-Counts c s h v = record {
    limit = v.limit;
    counted = v.counted;
    persists = ground (arith, call_back-given_up c s, v.persists);
  }

  update_status-Counts :
      (status : RmqStatus) (e : Option String) (s : Server)
      → Counts limit_of s
      → Counts limit_of (update_status status e s)
  unfolding update_status
  update_status-Counts status none s v = record {
    limit = v.limit;
    counted = v.counted;
    persists = v.persists;
  }
  update_status-Counts status (some e) s v = record {
    limit = v.limit;
    counted = v.counted;
    persists = v.persists;
  }

  run_consumers-Counts :
      (c : Creation) (s : Server) → Counts limit_of s → Counts limit_of (run_consumers c s)
  unfolding run_consumers
  run_consumers-Counts all_created s v =
      call_back-Counts success (record s { channels = s.patterns }) refl
        (record { limit = v.limit; counted = v.counted; persists = v.persists })
  run_consumers-Counts (throws_after k e) s v =
      call_back-Counts (consumers_failed e) (record s { channels = take k s.patterns }) refl
        (record { limit = v.limit; counted = v.counted; persists = v.persists })

  first_connect-Counts :
      (armed : Bool) (c : Creation) (s : Server)
      → Counts limit_of s
      → Counts limit_of (first_connect armed c s)
  unfolding first_connect
  first_connect-Counts false c s v = v
  first_connect-Counts true c s v =
      let s1 = record s { once_connect = false } in
      let v1 : Counts limit_of s1 = record {
        limit = v.limit;
        counted = v.counted;
        persists = v.persists;
      } in
      elim (Bool-cases (is_empty s.channels)) [
        | inl empty ↦
            simp empty (run_consumers-Counts c _ (update_status-Counts connected none s1 v1))
        | inr full ↦ simp full v1
      ]

  on_connect-Counts :
      (c : Creation) (s : Server) → Counts limit_of s → Counts limit_of (on_connect c s)
  unfolding on_connect each_connect
  on_connect-Counts c s v =
      let f = first_connect-Counts s.once_connect c s v in
      update_status-Counts connected none
        (record (first_connect s.once_connect c s) { connection_attempts = 0 })
        (record { limit = f.limit; counted = ground arith; persists = f.persists })

  on_disconnect-Counts :
      (e : Option String) (s : Server) → Counts limit_of s → Counts limit_of (on_disconnect e s)
  unfolding on_disconnect
  on_disconnect-Counts none s v = update_status-Counts disconnected none s v
  on_disconnect-Counts (some e) s v = update_status-Counts crashed (some e) s v

  -- The only call of the `connectFailed` listener: one attempt is counted, below the limit.
  attempt_failed-Counts :
      (e : String) (s : Server)
      → s.once_failed ≡ false
      → s.connection_attempts ≡ 0
      → Counts limit_of s
      → Counts limit_of (attempt_failed s.max_attempts e s)
  unfolding attempt_failed count_attempt
  attempt_failed-Counts e s h z v = ground (arith, v.limit, v.persists)

  on_failed-Counts :
      (armed : Bool) (e : Option String) (s : Server)
      → s.once_failed ≡ armed
      → Counts limit_of s
      → Counts limit_of (on_failed armed e s)
  unfolding on_failed first_failed
  on_failed-Counts false e s h v = v
  on_failed-Counts true none s h v =
      call_back-Counts disconnected_from_rmq
        (record s { once_failed = false; statuses = s.statuses ++ disconnected ∷ [] }) refl
        (record { limit = v.limit; counted = ground (arith, v.counted); persists = v.persists })
  on_failed-Counts true (some e) s h v =
      attempt_failed-Counts e
        (record s {
          once_failed = false;
          statuses = s.statuses ++ crashed ∷ [];
          failures = s.failures + 1;
        })
        refl (ground (arith, v.counted))
        (record { limit = v.limit; counted = ground (arith, v.counted); persists = v.persists })

  close-Counts : (s : Server) → Counts limit_of s → Counts limit_of (close s)
  unfolding close
  close-Counts s v = record {
    limit = v.limit;
    counted = ground (arith, v.counted);
    persists = v.persists;
  }

  emit-Counts :
      (client : Bool) (e : Event) (s : Server)
      → Counts limit_of s
      → Counts limit_of (emit client e s)
  unfolding emit
  emit-Counts true (connects c) s v = on_connect-Counts c s v
  emit-Counts true (disconnects e) s v = on_disconnect-Counts e s v
  emit-Counts true (connect_fails e) s v = on_failed-Counts s.once_failed e s refl v
  emit-Counts true closes s v = close-Counts s v
  emit-Counts false closes s v = close-Counts s v
  emit-Counts false (connects c) s v = v
  emit-Counts false (disconnects e) s v = v
  emit-Counts false (connect_fails e) s v = v

  run-Counts : (s : Server) (es : List Event) → Counts limit_of s → Counts limit_of (run s es)
  unfolding run step
  run-Counts s [] v = v
  run-Counts s (e ∷ es) v = run-Counts (step s e) es (emit-Counts s.client e s v)

start-Counts :
    (patterns : List String) (n : ℕ)
    → Counts (at_most (suc (suc n))) (start (new_server patterns (at_most (suc (suc n)))))
unfolding start
start-Counts patterns n = record { limit = refl; counted = omega arith; persists = refl }

-- With a limit of two connection attempts or more, a server that is started once never gives up: the
-- callback is never given a connection error, however many attempts fail, because the listener that
-- counts them is called once.
pub never_gives_up :
    (patterns : List String) (n : ℕ) (es : List Event)
    → count_by is_connect_failed
        (run (start (new_server patterns (at_most (suc (suc n))))) es).callbacks
      ≡ 0
never_gives_up patterns n es = (run-Counts n _ es (start-Counts patterns n)).persists

-- With a limit of one attempt or none, the first failure before any connection closes the server and
-- hands its error to the callback.
gives_up_at_first :
    (patterns : List String) (most : ℕ) (e : String)
    → most ≤ 1
    → let s = run (start (new_server patterns (at_most most))) (connect_fails (some e) ∷ []) in
      (s.client ≡ false) × (s.callbacks ≡ connect_failed e ∷ [])
unfolding run step start emit attempt_failed close call_back
gives_up_at_first patterns most e h = (ground arith, ground arith)
