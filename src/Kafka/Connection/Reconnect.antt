-- ===== src/Kafka/Connection/Reconnect.antt =====
-- At most one reconnection runs at a time.
use demo_hybrid_microservice.Common.{
  String, ℕ, zero, suc, ◌≡◌, refl, Bool, true, false, List, [], ◌∷◌, none, some, if◌then◌else◌,
  arith, count_by, Option-cases, inl, inr,
}
use demo_hybrid_microservice.Kafka.Connection.{
  Origin, running, reconnecting, Await, before_reconnect, connect_each, connect_batch, starting,
  clean_up, sleeping, Task, Server, new_server, Next, begin_start, begin_batch, loop,
  connect_and_start, Outcome, succeeds, fails, Progress, waits, leaves, progress, after_delay,
  disconnected, continue, settle_task, take_task, resume_task, listen, crash, close, closed, Event,
  listens, closes, close_ends, crashes, resumes, step, run,
}

abbrev pub is_reconnection : Task → Bool
is_reconnection t = elim t.origin [ running ↦ false | reconnecting ↦ true ]

abbrev pub reconnections : Server → ℕ
reconnections s = count_by is_reconnection s.tasks

-- `isReconnecting` says that there is a task of `reconnect`, and there is no second one.
abbrev pub IsSingle : Server → Type 0
IsSingle s = reconnections s ≡ (if s.is_reconnecting then 1 else 0)

pub count_by-take_task :
    (q : Task → Bool) (n : ℕ) (ts : List Task) (t : Task) (rest : List Task)
    → take_task n ts ≡ some (t, rest)
    → count_by q ts ≡ count_by q (t ∷ rest)
unfolding take_task
count_by-take_task q n [] t rest e = ground arith
count_by-take_task q zero (x ∷ ts) t rest e = ground arith
count_by-take_task q (suc n) (x ∷ ts) t rest e = elim (Option-cases (take_task n ts)) [
  | inl missed ↦ ground arith
  | inr ((u, us), found) ↦ ground (arith, count_by-take_task q n ts u us found)
]

abbrev pub server_of : Progress → Server
server_of (waits s a) = s
server_of (leaves s r) = s

-- `connectAndStart` and what it calls touch neither the flag nor the other tasks.
pub record Keeps (s s' : Server) : Type 0 where
  pub flag : s'.is_reconnecting ≡ s.is_reconnecting
  pub others : s'.tasks ≡ s.tasks

begin_start-Keeps : (s : Server) → Keeps s (begin_start s).0
unfolding begin_start
begin_start-Keeps s = ground arith

begin_batch-Keeps : (s : Server) → Keeps s (begin_batch s).0
unfolding begin_batch begin_start
begin_batch-Keeps s = ground arith

loop-Keeps : (s : Server) → Keeps s (loop s).0
unfolding loop
loop-Keeps s = ground arith

progress-server : (n : Next) → server_of (progress n) ≡ n.0
progress-server (s, none) = refl
progress-server (s, some a) = refl

progress-Keeps : (s : Server) (n : Next) → Keeps s n.0 → Keeps s (server_of (progress n))
progress-Keeps s n k = rw (progress-server n) k

connect_and_start-Keeps : (s : Server) → Keeps s (connect_and_start s).0
unfolding connect_and_start
connect_and_start-Keeps s =
    let k = loop-Keeps (record s { is_connecting = true }) in
    record { flag = k.flag; others = k.others }

after_delay-Keeps :
    (stop : Bool) (e : String) (s : Server) (n : Next)
    → Keeps s n.0
    → Keeps s (server_of (after_delay stop e s n))
unfolding after_delay
after_delay-Keeps true e s n k = record { flag = refl; others = refl }
after_delay-Keeps false e s n k = progress-Keeps s n k

pub continue-Keeps : (a : Await) (o : Outcome) (s : Server) → Keeps s (server_of (continue a o s))
unfolding continue
continue-Keeps before_reconnect o s =
    let k = connect_and_start-Keeps (disconnected s) in
    progress-Keeps s (connect_and_start (disconnected s))
      (record { flag = k.flag; others = k.others })
continue-Keeps connect_each succeeds s =
    let k = begin_batch-Keeps (record s { consumer = true }) in
    progress-Keeps s (begin_batch (record s { consumer = true }))
      (record { flag = k.flag; others = k.others })
continue-Keeps connect_each (fails e) s = record { flag = refl; others = refl }
continue-Keeps connect_batch succeeds s =
    let k = begin_start-Keeps (record s { batch_consumer = true }) in
    progress-Keeps s (begin_start (record s { batch_consumer = true }))
      (record { flag = k.flag; others = k.others })
continue-Keeps connect_batch (fails e) s = record { flag = refl; others = refl }
continue-Keeps starting succeeds s = record { flag = refl; others = refl }
continue-Keeps starting (fails e) s = record { flag = refl; others = refl }
continue-Keeps (clean_up e) o s = record { flag = refl; others = refl }
continue-Keeps (sleeping e) o s = after_delay-Keeps s.is_stop e s (loop s) (loop-Keeps s)

-- Where the task ends, its flag is cleared.
settle_task-IsSingle :
    (origin : Origin) (pr : Progress) (a : Await)
    → count_by is_reconnection (record { origin = origin; await = a } ∷ (server_of pr).tasks)
      ≡ (if (server_of pr).is_reconnecting then 1 else 0)
    → IsSingle (settle_task origin pr)
unfolding settle_task
settle_task-IsSingle origin (waits s b) a h = h
settle_task-IsSingle running (leaves s none) a h = ground arith
settle_task-IsSingle running (leaves s (some e)) a h = h
settle_task-IsSingle reconnecting (leaves s r) a h = ground arith

resume_task-IsSingle :
    (n : ℕ) (o : Outcome) (s : Server)
    → IsSingle s
    → IsSingle (resume_task (take_task n s.tasks) o s)
unfolding resume_task
resume_task-IsSingle n o s v = elim (Option-cases (take_task n s.tasks)) [
  | inl missed ↦ rw (missed, resume_task) v
  | inr ((t, rest), found) ↦
      let k = continue-Keeps t.await o (record s { tasks = rest }) in
      rw (found, resume_task)
        (settle_task-IsSingle t.origin (continue t.await o (record s { tasks = rest })) t.await (
          rw (k.flag, k.others)
            (ground (arith, count_by-take_task is_reconnection n s.tasks t rest found))))
]

listen-IsSingle : (s : Server) → IsSingle s → IsSingle (listen s)
unfolding listen
listen-IsSingle s v =
    let n = connect_and_start (record s { is_stop = false }) in
    let c = connect_and_start-Keeps (record s { is_stop = false }) in
    let k = progress-Keeps s n (record { flag = c.flag; others = c.others }) in
    settle_task-IsSingle running (progress n) starting (rw (k.flag, k.others) v)

crash-IsSingle : (restart : Bool) (s : Server) → IsSingle s → IsSingle (crash restart s)
unfolding crash
crash-IsSingle restart s v = ground arith

closed-IsSingle : (n : ℕ) (s : Server) → IsSingle s → IsSingle (closed n s)
unfolding closed
closed-IsSingle zero s v = v
closed-IsSingle (suc n) s v = v

close-IsSingle : (s : Server) → IsSingle s → IsSingle (close s)
unfolding close
close-IsSingle s v = v

step-IsSingle : (s : Server) (e : Event) → IsSingle s → IsSingle (step s e)
unfolding step
step-IsSingle s listens v = listen-IsSingle s v
step-IsSingle s closes v = close-IsSingle s v
step-IsSingle s close_ends v = closed-IsSingle s.closing s v
step-IsSingle s (crashes restart) v = crash-IsSingle restart s v
step-IsSingle s (resumes n o) v = resume_task-IsSingle n o s v

run-IsSingle : (s : Server) (es : List Event) → IsSingle s → IsSingle (run s es)
unfolding run
run-IsSingle s [] v = v
run-IsSingle s (e ∷ es) v = run-IsSingle (step s e) es (step-IsSingle s e v)

-- Whatever happens to a new server, in any order and with any number of calls of `listen`, at most one
-- `reconnect` is under way, and `isReconnecting` is set exactly while one is.
pub run-new_server-IsSingle :
    (has_each has_batch : Bool) (es : List Event)
    → IsSingle (run (new_server has_each has_batch) es)
run-new_server-IsSingle has_each has_batch es = run-IsSingle _ es refl
