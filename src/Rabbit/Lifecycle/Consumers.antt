-- ===== src/Rabbit/Lifecycle/Consumers.antt =====
-- The creation of consumers, and the statuses that are published and counted.
use demo_hybrid_microservice.Common.{
  ℕ, ◌+◌, ◌≤◌, ◌≡◌, refl, String, Bool, true, false, List, [], ◌∷◌, Option, none, some,
  if◌then◌else◌, count_by, count_by-append, arith, leb, Bool-cases, inl, inr,
}
use demo_hybrid_microservice.Rabbit.Lifecycle.{
  RmqStatus, connected, disconnected, crashed, MaxAttempts, infinite, at_most, Callback, success,
  consumers_failed, connect_failed, disconnected_from_rmq, Server, new_server, is_empty, Creation,
  all_created, throws_after, call_back, update_status, start, close, run_consumers, first_connect,
  each_connect, on_connect, on_disconnect, count_attempt, attempt_failed, first_failed, on_failed,
  Event, connects, disconnects, connect_fails, closes, emit, step, run,
}

-- The callback is told how the creation of the consumers went.
abbrev pub is_creation_report : Callback → Bool
is_creation_report success = true
is_creation_report (consumers_failed e) = true
is_creation_report _ = false

abbrev pub is_crashed : RmqStatus → Bool
is_crashed crashed = true
is_crashed _ = false

abbrev pub creation_reports : Server → ℕ
creation_reports s = count_by is_creation_report s.callbacks

-- The consumers are created at most once, and the failures counted are the CRASHED statuses.
pub record Agrees (s : Server) : Type 0 where
  pub once : creation_reports s + (if s.once_connect then 1 else 0) ≤ 1
  pub counted : s.failures ≡ count_by is_crashed s.statuses

call_back-reports :
    (c : Callback) (s : Server)
    → creation_reports (call_back c s)
      ≡ creation_reports s + (if is_creation_report c then 1 else 0)
unfolding call_back
call_back-reports c s = ground (arith, count_by-append is_creation_report s.callbacks (c ∷ []))

-- `updateStatus` with the error that goes with the status.
abbrev error_of : RmqStatus → String → Option String
error_of connected e = none
error_of disconnected e = none
error_of crashed e = some e

update_status-Agrees :
    (status : RmqStatus) (e : String) (s : Server)
    → Agrees s
    → Agrees (update_status status (error_of status e) s)
unfolding update_status
update_status-Agrees connected e s v = record {
  once = v.once;
  counted = ground (arith, count_by-append is_crashed s.statuses (connected ∷ []), v.counted);
}
update_status-Agrees disconnected e s v = record {
  once = v.once;
  counted = ground (arith, count_by-append is_crashed s.statuses (disconnected ∷ []), v.counted);
}
update_status-Agrees crashed e s v = record {
  once = v.once;
  counted = ground (arith, count_by-append is_crashed s.statuses (crashed ∷ []), v.counted);
}

-- The listener is gone when it creates the consumers, so that its one report is the first.
run_consumers-Agrees :
    (c : Creation) (s : Server)
    → s.once_connect ≡ false
    → creation_reports s ≡ 0
    → Agrees s
    → Agrees (run_consumers c s)
unfolding run_consumers call_back
run_consumers-Agrees all_created s h z v = record {
  once = ground (arith, call_back-reports success s);
  counted = v.counted;
}
run_consumers-Agrees (throws_after k e) s h z v = record {
  once = ground (arith, call_back-reports (consumers_failed e) s);
  counted = v.counted;
}

first_connect-Agrees :
    (armed : Bool) (c : Creation) (s : Server)
    → s.once_connect ≡ armed
    → Agrees s
    → Agrees (first_connect armed c s)
unfolding first_connect
first_connect-Agrees false c s h v = v
first_connect-Agrees true c s h v =
    let s1 = record s { once_connect = false } in
    let none_yet : creation_reports s ≡ 0 = ground (arith, v.once) in
    let v1 : Agrees s1 = record { once = ground (arith, none_yet); counted = v.counted } in
    let u = update_status-Agrees connected "" s1 v1 in
    elim (Bool-cases (is_empty s.channels)) [
      | inl empty ↦
          simp empty (run_consumers-Agrees c (update_status connected none s1) refl none_yet u)
      | inr full ↦ simp full v1
    ]

on_connect-Agrees : (c : Creation) (s : Server) → Agrees s → Agrees (on_connect c s)
unfolding on_connect each_connect
on_connect-Agrees c s v =
    let f = first_connect-Agrees s.once_connect c s refl v in
    update_status-Agrees connected ""
      (record (first_connect s.once_connect c s) { connection_attempts = 0 })
      (record { once = f.once; counted = f.counted })

on_disconnect-Agrees : (e : Option String) (s : Server) → Agrees s → Agrees (on_disconnect e s)
unfolding on_disconnect
on_disconnect-Agrees none s v = update_status-Agrees disconnected "" s v
on_disconnect-Agrees (some e) s v = update_status-Agrees crashed e s v

close-Agrees : (s : Server) → Agrees s → Agrees (close s)
unfolding close
close-Agrees s v = record { once = ground (arith, v.once); counted = v.counted }

-- A report that is not about the consumers.
call_back-Agrees :
    (c : Callback) (s : Server) → is_creation_report c ≡ false → Agrees s → Agrees (call_back c s)
unfolding call_back
call_back-Agrees c s h v = record {
  once = ground (arith, call_back-reports c s, v.once);
  counted = v.counted;
}

attempt_failed-Agrees :
    (m : MaxAttempts) (e : String) (s : Server) → Agrees s → Agrees (attempt_failed m e s)
unfolding attempt_failed count_attempt
attempt_failed-Agrees infinite e s v = v
attempt_failed-Agrees (at_most most) e s v =
    let s1 = record s { connection_attempts = s.connection_attempts + 1 } in
    let v1 : Agrees s1 = record { once = v.once; counted = v.counted } in
    let c = call_back-Agrees (connect_failed e) (close s1) refl (close-Agrees s1 v1) in
    elim (Bool-cases (is_empty s.channels)) [
      | inr full ↦ simp full v
      | inl empty ↦ simp empty (elim (Bool-cases (leb most (s.connection_attempts + 1))) [
        | inl over ↦ simp over c
        | inr under ↦ simp under v1
      ])
    ]

on_failed-Agrees :
    (armed : Bool) (e : Option String) (s : Server) → Agrees s → Agrees (on_failed armed e s)
unfolding on_failed first_failed
on_failed-Agrees false e s v = v
on_failed-Agrees true none s v =
    let s1 = record s { once_failed = false } in
    let u =
      update_status-Agrees disconnected "" s1 (record { once = v.once; counted = v.counted }) in
    call_back-Agrees disconnected_from_rmq (update_status disconnected none s1) refl u
on_failed-Agrees true (some e) s v =
    let s1 = record s { once_failed = false } in
    let u = update_status-Agrees crashed e s1 (record { once = v.once; counted = v.counted }) in
    attempt_failed-Agrees s.max_attempts e (update_status crashed (some e) s1) u

emit-Agrees : (client : Bool) (e : Event) (s : Server) → Agrees s → Agrees (emit client e s)
unfolding emit
emit-Agrees true (connects c) s v = on_connect-Agrees c s v
emit-Agrees true (disconnects e) s v = on_disconnect-Agrees e s v
emit-Agrees true (connect_fails e) s v = on_failed-Agrees s.once_failed e s v
emit-Agrees true closes s v = close-Agrees s v
emit-Agrees false closes s v = close-Agrees s v
emit-Agrees false (connects c) s v = v
emit-Agrees false (disconnects e) s v = v
emit-Agrees false (connect_fails e) s v = v

run-Agrees : (s : Server) (es : List Event) → Agrees s → Agrees (run s es)
unfolding run step
run-Agrees s [] v = v
run-Agrees s (e ∷ es) v = run-Agrees (step s e) es (emit-Agrees s.client e s v)

start-Agrees : (patterns : List String) (m : MaxAttempts) → Agrees (start (new_server patterns m))
unfolding start
start-Agrees patterns m = record { once = omega arith; counted = refl }

-- After one start, whatever the connection manager emits, the callback is told at most once how the
-- creation of the consumers went, with none told while the listener that creates them is still there;
-- and the failures counted are as many as the CRASHED statuses published.
pub run-start-Agrees :
    (patterns : List String) (m : MaxAttempts) (es : List Event)
    → Agrees (run (start (new_server patterns m)) es)
run-start-Agrees patterns m es = run-Agrees _ es (start-Agrees patterns m)
