-- ===== src/Kafka/Connection.antt =====
-- The life of a Kafka server: `listen`, `run`, `connectAndStart`, `reconnect`, `close` and the CRASH
-- listener of src/modules/kafka/kafka-server/services/kafka-server.base.ts, with `connect`, `start` and
-- `disconnect` of kafka-server.service.ts. Each await is a place where other code may run: a call that
-- waits is a task, and an event lets one task go on. Whether what was awaited succeeded is the event's.
pub mod Reconnect
pub mod Stop
use demo_hybrid_microservice.Common.{
  ℕ, zero, suc, ◌+◌, ◌-◌, String, Bool, true, false, not, ◌&&◌, ◌||◌, List, [], ◌∷◌, ◌++◌, Option,
  none, some, if◌then◌else◌,
}

-- Which method called `connectAndStart`: `run`, from `listen`, or `reconnect`.
pub data Origin : Type 0 where
  running reconnecting : Origin

-- Where a task waits: in `reconnect` for its first `disconnect`; in `connect` for the consumer of each
-- mode; for `start`; after a failure for `disconnect`; then for `delay`.
pub data Await : Type 0 where
  before_reconnect connect_each connect_batch starting : Await
  clean_up sleeping : String → Await

pub record Task : Type 0 where
  pub origin : Origin
  pub await : Await

-- `has_each` and `has_batch` say whether topics are registered in the two modes. `closing` counts the
-- calls of `close` that wait for `disconnect`; `attempts` the calls of `connect`; `failures` the
-- increments of KAFKA_SERVER_START_FAILED; `callbacks` holds the errors given to the callback, `none`
-- for a success.
pub record Server : Type 0 where
  pub has_each : Bool
  pub has_batch : Bool
  pub is_stop : Bool
  pub is_connecting : Bool
  pub is_reconnecting : Bool
  pub client : Bool
  pub consumer : Bool
  pub batch_consumer : Bool
  pub tasks : List Task
  pub closing : ℕ
  pub attempts : ℕ
  pub failures : ℕ
  pub callbacks : List (Option String)

abbrev pub new_server : Bool → Bool → Server
new_server has_each has_batch = record {
  has_each = has_each;
  has_batch = has_batch;
  is_stop = false;
  is_connecting = false;
  is_reconnecting = false;
  client = false;
  consumer = false;
  batch_consumer = false;
  tasks = [];
  closing = 0;
  attempts = 0;
  failures = 0;
  callbacks = [];
}

-- The assignments at the end of `disconnect`.
disconnected : Server → Server
disconnected s = record s { client = false; consumer = false; batch_consumer = false }

-- What a task does next: it waits again, or its method has returned.
abbrev pub Next : Type 0
Next = Server × Option Await

-- The `catch` block up to its first await.
abbrev fail : String → Server → Next
fail e s = (s, some (clean_up e))

-- `start`: `bindEachEvents` and `bindBatchEvents` throw at once if a consumer that they need is null.
begin_start : Server → Next
begin_start s =
    if s.has_each && not s.consumer
    then fail "Kafka consumer is not initialized" s
    else (if s.has_batch && not s.batch_consumer
        then fail "Kafka batch consumer is not initialized" s
        else (s, some starting))

-- `createConsumer` for the batch topics, which throws if `client` is null.
begin_batch : Server → Next
begin_batch s =
    if s.has_batch
    then (if s.client then (s, some connect_batch) else fail "Kafka client is not initialized" s)
    else begin_start s

-- `connect` up to its first await.
begin_connect : Server → Next
unfolding begin_batch begin_start
begin_connect s =
    let s1 = record s { client = true; attempts = s.attempts + 1 } in
    if s1.has_each then (s1, some connect_each) else begin_batch s1

-- The head of the loop, `while (!this.isStop)`; `finally` clears `isConnecting` when it is left.
loop : Server → Next
unfolding begin_connect
loop s = if s.is_stop then (record s { is_connecting = false }, none) else begin_connect s

pub connect_and_start : Server → Next
unfolding loop
connect_and_start s = loop (record s { is_connecting = true })

-- The end of `connectAndStart`: how the method that called it ends. A success is reported only by `run`
-- and only if the server has not been stopped; `reconnect` swallows the error.
leave : Origin → Option String → Server → Server
leave running none s = if s.is_stop then s else record s { callbacks = s.callbacks ++ none ∷ [] }
leave running (some e) s = record s { callbacks = s.callbacks ++ some e ∷ [] }
leave reconnecting result s = record s { is_reconnecting = false }

-- A task goes on after its await; `none` is a rejection where it carries no error, `some` an error.
pub data Outcome : Type 0 where
  succeeds : Outcome
  fails : String → Outcome

-- The result of an await inside `connectAndStart`: the next await, or how the method is left.
pub data Progress : Type 0 where
  waits : Server → Await → Progress
  leaves : Server → Option String → Progress

abbrev progress : Next → Progress
progress (s, some a) = waits s a
progress (s, none) = leaves s none

-- After `delay`: the error is thrown if the server has been stopped, else the loop goes on with `next`.
after_delay : Bool → String → Server → Next → Progress
after_delay true e s next = leaves (record s { is_connecting = false }) (some e)
after_delay false e s next = progress next

pub continue : Await → Outcome → Server → Progress
unfolding connect_and_start disconnected after_delay
continue before_reconnect o s = progress (connect_and_start (disconnected s))
continue connect_each succeeds s = progress (begin_batch (record s { consumer = true }))
continue connect_each (fails e) s = progress (fail e s)
continue connect_batch succeeds s = progress (begin_start (record s { batch_consumer = true }))
continue connect_batch (fails e) s = progress (fail e s)
continue starting succeeds s = leaves (record s { is_connecting = false }) none
continue starting (fails e) s = progress (fail e s)
continue (clean_up e) o s =
    waits (record (disconnected s) { failures = s.failures + 1 }) (sleeping e)
continue (sleeping e) o s = after_delay s.is_stop e s (loop s)

settle_task : Origin → Progress → Server
unfolding leave
settle_task origin (waits s a) = record s {
  tasks = record { origin = origin; await = a } ∷ s.tasks;
}
settle_task origin (leaves s result) = leave origin result s

-- Takes the n-th waiting task out of the list.
pub take_task : ℕ → List Task → Option (Task × List Task)
take_task n [] = none
take_task zero (t ∷ ts) = some (t, ts)
take_task (suc n) (t ∷ ts) = elim (take_task n ts) [ none ↦ none | some (u, us) ↦ some (u, t ∷ us) ]

resume_task : Option (Task × List Task) → Outcome → Server → Server
unfolding continue settle_task
resume_task none o s = s
resume_task (some (t, rest)) o s =
    settle_task t.origin (continue t.await o (record s { tasks = rest }))

pub listen : Server → Server
unfolding settle_task
listen s = settle_task running (progress (connect_and_start (record s { is_stop = false })))

-- `reconnect` up to its first await.
pub reconnect : Server → Server
reconnect s = if s.is_stop || s.is_reconnecting then s else record s {
  is_reconnecting = true;
  tasks = record { origin = reconnecting; await = before_reconnect } ∷ s.tasks;
}

-- The CRASH listener.
pub crash : Bool → Server → Server
unfolding reconnect
crash restart s = if not restart && (not s.is_stop && not s.is_connecting) then reconnect s else s

-- `close` up to its await, and the end of that `disconnect`.
pub close : Server → Server
close s = record s { is_stop = true; closing = s.closing + 1 }

closed : ℕ → Server → Server
unfolding disconnected
closed zero s = s
closed (suc n) s = record (disconnected s) { closing = n }

pub data Event : Type 0 where
  listens closes close_ends : Event
  crashes : (restart : Bool) → Event
  resumes : (n : ℕ) → Outcome → Event

pub step : Server → Event → Server
unfolding resume_task closed
step s listens = listen s
step s closes = close s
step s close_ends = closed s.closing s
step s (crashes restart) = crash restart s
step s (resumes n o) = resume_task (take_task n s.tasks) o s

unfoldable pub run : Server → List Event → Server
run s [] = s
run s (e ∷ es) = run (step s e) es
