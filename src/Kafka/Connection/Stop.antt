-- ===== src/Kafka/Connection/Stop.antt =====
-- What `close` achieves: a stopped server comes to rest, and what it leaves behind.
use demo_hybrid_microservice.Common.{
  ℕ, zero, suc, ◌+◌, ◌≤◌, ◌<◌, ◌≡◌, refl, inl, inr, String, Bool, true, false, not, List, [], ◌∷◌,
  none, some, if◌then◌else◌, arith, Option-cases, ap, ◌∙◌, all_of,
}
use demo_hybrid_microservice.Kafka.Connection.{
  Origin, running, reconnecting, Await, before_reconnect, connect_each, connect_batch, starting,
  clean_up, sleeping, Task, Server, Next, begin_start, begin_batch, loop, connect_and_start,
  disconnected, Outcome, succeeds, fails, Progress, waits, leaves, progress, after_delay, continue,
  settle_task, take_task, resume_task, crash, close, closed, Event, listens, closes, close_ends,
  crashes, resumes, step, run,
}
use demo_hybrid_microservice.Kafka.Connection.Reconnect.{server_of, continue-Keeps}

-- How many more awaits a task of a stopped server can have.
abbrev pub awaits_left : Await → ℕ
awaits_left before_reconnect = 1
awaits_left connect_each = 5
awaits_left connect_batch = 4
awaits_left starting = 3
awaits_left (clean_up e) = 2
awaits_left (sleeping e) = 1

abbrev pub work_left : List Task → ℕ
work_left [] = 0
work_left (t ∷ ts) = awaits_left t.await + work_left ts

abbrev progress_left : Progress → ℕ
progress_left (waits s a) = awaits_left a
progress_left (leaves s r) = 0

work_left-take_task :
    (n : ℕ) (ts : List Task) (t : Task) (rest : List Task)
    → take_task n ts ≡ some (t, rest)
    → work_left ts ≡ awaits_left t.await + work_left rest
unfolding take_task
work_left-take_task n [] t rest e = ground arith
work_left-take_task zero (x ∷ ts) t rest e = ground arith
work_left-take_task (suc n) (x ∷ ts) t rest e = elim (Option-cases (take_task n ts)) [
  | inl missed ↦ ground arith
  | inr ((u, us), found) ↦ ground (arith, work_left-take_task n ts u us found)
]

-- Still stopped, with no new call of `connect`.
record Rests (s s' : Server) : Type 0 where
  stopped : s'.is_stop ≡ true
  same : s'.attempts ≡ s.attempts

begin_start-Rests :
    (s : Server)
    → s.is_stop ≡ true
    → Rests s (server_of (progress (begin_start s)))
      × (progress_left (progress (begin_start s)) ≤ 3)
unfolding begin_start
begin_start-Rests s h = (ground arith, ground arith)

begin_batch-Rests :
    (s : Server)
    → s.is_stop ≡ true
    → Rests s (server_of (progress (begin_batch s)))
      × (progress_left (progress (begin_batch s)) ≤ 4)
unfolding begin_batch begin_start
begin_batch-Rests s h = (ground arith, ground arith)

connect_and_start-Rests :
    (s : Server)
    → s.is_stop ≡ true
    → Rests s (server_of (progress (connect_and_start s)))
      × (progress_left (progress (connect_and_start s)) ≡ 0)
unfolding connect_and_start loop
connect_and_start-Rests s h = (ground arith, ground arith)

after_delay-Rests :
    (stop : Bool) (e : String) (s : Server) (n : Next)
    → stop ≡ true
    → s.is_stop ≡ true
    → Rests s (server_of (after_delay stop e s n)) × (progress_left (after_delay stop e s n) ≡ 0)
unfolding after_delay
after_delay-Rests true e s n d h = (record { stopped = h; same = refl }, refl)
after_delay-Rests false e s n d h = ground arith

continue-Rests :
    (a : Await) (o : Outcome) (s : Server)
    → s.is_stop ≡ true
    → Rests s (server_of (continue a o s)) × (progress_left (continue a o s) < awaits_left a)
unfolding continue
continue-Rests before_reconnect o s h =
    let r = connect_and_start-Rests (disconnected s) h in
    (record { stopped = r.0.stopped; same = r.0.same }, omega (arith, r.1))
continue-Rests connect_each succeeds s h =
    let r = begin_batch-Rests (record s { consumer = true }) h in
    (record { stopped = r.0.stopped; same = r.0.same }, omega (arith, r.1))
continue-Rests connect_each (fails e) s h = (record { stopped = h; same = refl }, omega arith)
continue-Rests connect_batch succeeds s h =
    let r = begin_start-Rests (record s { batch_consumer = true }) h in
    (record { stopped = r.0.stopped; same = r.0.same }, omega (arith, r.1))
continue-Rests connect_batch (fails e) s h = (record { stopped = h; same = refl }, omega arith)
continue-Rests starting succeeds s h = (record { stopped = h; same = refl }, omega arith)
continue-Rests starting (fails e) s h = (record { stopped = h; same = refl }, omega arith)
continue-Rests (clean_up e) o s h = (record { stopped = h; same = refl }, omega arith)
continue-Rests (sleeping e) o s h =
    let r = after_delay-Rests s.is_stop e s (loop s) h h in (r.0, omega (arith, r.1))

settle_task-Rests :
    (origin : Origin) (s : Server) (pr : Progress)
    → Rests s (server_of pr)
    → Rests s (settle_task origin pr)
      × (work_left (settle_task origin pr).tasks
          ≡ progress_left pr + work_left (server_of pr).tasks)
unfolding settle_task
settle_task-Rests origin s (waits s' a) r = (record { stopped = r.stopped; same = r.same }, refl)
settle_task-Rests running s (leaves s' none) r = (ground (arith, r.stopped, r.same), ground arith)
settle_task-Rests running s (leaves s' (some e)) r =
    (record { stopped = r.stopped; same = r.same }, omega arith)
settle_task-Rests reconnecting s (leaves s' x) r =
    (record { stopped = r.stopped; same = r.same }, omega arith)

-- An event that lets a waiting task go on.
abbrev pub is_effective : Server → Event → Bool
is_effective s (resumes n o) = elim (take_task n s.tasks) [ none ↦ false | some t ↦ true ]
is_effective s _ = false

abbrev pub is_listen : Event → Bool
is_listen listens = true
is_listen _ = false

abbrev pub steps_of : Server → Event → ℕ
steps_of s e = if is_effective s e then 1 else 0

-- One event of a stopped server.
record Slows (s s' : Server) (used : ℕ) : Type 0 where
  rests : Rests s s'
  less : used + work_left s'.tasks ≤ work_left s.tasks

steps_of-le : (s : Server) (n : ℕ) (o : Outcome) → steps_of s (resumes n o) ≤ 1
steps_of-le s n o = ground arith

resume_task-Slows :
    (n : ℕ) (o : Outcome) (s : Server)
    → s.is_stop ≡ true
    → Slows s (resume_task (take_task n s.tasks) o s) (steps_of s (resumes n o))
unfolding resume_task
resume_task-Slows n o s h = elim (Option-cases (take_task n s.tasks)) [
  | inl missed ↦
      rw (missed, resume_task)
        (record { rests = record { stopped = h; same = refl }; less = ground arith })
  | inr ((t, rest), found) ↦
      let r = record s { tasks = rest } in
      let c = continue-Rests t.await o r h in
      let k = continue-Keeps t.await o r in
      let e = settle_task-Rests t.origin r (continue t.await o r) c.0 in
      rw (found, resume_task)
        (record {
          rests = record { stopped = e.0.stopped; same = e.0.same };
          less = omega (
            arith,
            steps_of-le s n o,
            e.1,
            c.1,
            ap work_left k.others,
            work_left-take_task n s.tasks t rest found,
          );
        })
]

crash-Slows : (restart : Bool) (s : Server) → s.is_stop ≡ true → Slows s (crash restart s) 0
unfolding crash
crash-Slows restart s h = record {
  rests = record { stopped = ground arith; same = ground arith };
  less = ground arith;
}

closed-Slows : (n : ℕ) (s : Server) → s.is_stop ≡ true → Slows s (closed n s) 0
unfolding closed
closed-Slows zero s h = record { rests = record { stopped = h; same = refl }; less = omega arith }
closed-Slows (suc n) s h = record {
  rests = record { stopped = h; same = refl };
  less = omega arith;
}

close-Slows : (s : Server) → Slows s (close s) 0
unfolding close
close-Slows s = record { rests = record { stopped = refl; same = refl }; less = omega arith }

step-Slows :
    (s : Server) (e : Event)
    → is_listen e ≡ false
    → s.is_stop ≡ true
    → Slows s (step s e) (steps_of s e)
unfolding step
step-Slows s listens l h = ground arith
step-Slows s closes l h = close-Slows s
step-Slows s close_ends l h = closed-Slows s.closing s h
step-Slows s (crashes restart) l h = crash-Slows restart s h
step-Slows s (resumes n o) l h = resume_task-Slows n o s h

abbrev pub steps_taken : Server → List Event → ℕ
steps_taken s [] = 0
steps_taken s (e ∷ es) = steps_of s e + steps_taken (step s e) es

-- A stopped server on which `listen` is not called again stays stopped and makes no new call of
-- `connect`; its waiting tasks go on at most `work_left` times in all, so that they come to an end.
pub run_stopped :
    (s : Server) (es : List Event)
    → s.is_stop ≡ true
    → all_of (λ e. not (is_listen e)) es ≡ true
    → ((run s es).is_stop ≡ true)
      × ((run s es).attempts ≡ s.attempts)
      × (steps_taken s es + work_left (run s es).tasks ≤ work_left s.tasks)
unfolding run
run_stopped s [] h l = (h, refl, omega arith)
run_stopped s (e ∷ es) h l =
    let c = step-Slows s e (ground arith) h in
    let (stop, same, less) = run_stopped (step s e) es c.rests.stopped (ground arith) in
    (stop, same ∙ c.rests.same, omega (arith, c.less))
