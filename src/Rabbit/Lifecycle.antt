-- ===== src/Rabbit/Lifecycle.antt =====
-- The connection of a RabbitMQ server: `listen`, `start`, `close`, `updateStatus`, `runConsumers` and the
-- listeners of src/modules/rabbit-mq/rabbit-mq-server/services/rabbit-mq-server.ts. The connection
-- manager emits events; a `once` listener is removed when it is called. What a closed client still
-- emits is not heard. The awaits of `close` are taken as one, and its channels and client close.
pub mod Attempts
pub mod Consumers
use demo_hybrid_microservice.Common.{
  ℕ, suc, ◌+◌, String, Bool, true, false, not, ◌||◌, List, [], ◌∷◌, ◌++◌, map, Option, none, some,
  if◌then◌else◌, leb, take,
}

pub data RmqStatus : Type 0 where
  connected disconnected crashed : RmqStatus

-- `maxConnectionAttempts`, with `INFINITE_CONNECTION_ATTEMPTS` for -1.
pub data MaxAttempts : Type 0 where
  infinite : MaxAttempts
  at_most : ℕ → MaxAttempts

-- What the callback of `listen` is given.
pub data Callback : Type 0 where
  success : Callback
  consumers_failed : String → Callback
  connect_failed : String → Callback
  disconnected_from_rmq : Callback

-- `patterns` are the keys of `getHandlers()`. `once_connect` and `once_failed` say whether the `once`
-- listeners of the client are still there; `statuses` and `failures` are what `updateStatus` published
-- and counted.
pub record Server : Type 0 where
  pub patterns : List String
  pub max_attempts : MaxAttempts
  pub client : Bool
  pub once_connect : Bool
  pub once_failed : Bool
  pub channels : List String
  pub connection_attempts : ℕ
  pub statuses : List RmqStatus
  pub failures : ℕ
  pub callbacks : List Callback

abbrev pub new_server : List String → MaxAttempts → Server
new_server patterns max_attempts = record {
  patterns = patterns;
  max_attempts = max_attempts;
  client = false;
  once_connect = false;
  once_failed = false;
  channels = [];
  connection_attempts = 0;
  statuses = [];
  failures = 0;
  callbacks = [];
}

abbrev is_empty : List String → Bool
is_empty [] = true
is_empty (x ∷ xs) = false

call_back : Callback → Server → Server
call_back c s = record s { callbacks = s.callbacks ++ c ∷ [] }

-- The error is `errorInfo?.err`.
update_status : RmqStatus → Option String → Server → Server
update_status status none s = record s { statuses = s.statuses ++ status ∷ [] }
update_status status (some e) s = record s {
  statuses = s.statuses ++ status ∷ [];
  failures = s.failures + 1;
}

pub start : Server → Server
start s = record s { client = true; once_connect = true; once_failed = true }

pub close : Server → Server
close s = record s { channels = []; client = false }

-- How `createChannel` fares over the patterns: it may throw after some of them.
pub data Creation : Type 0 where
  all_created : Creation
  throws_after : ℕ → String → Creation

-- `runConsumers`: a channel for each pattern, up to an error.
run_consumers : Creation → Server → Server
unfolding call_back
run_consumers all_created s = call_back success (record s { channels = s.patterns })
run_consumers (throws_after n e) s =
    call_back (consumers_failed e) (record s { channels = take n s.patterns })

-- The `once` listener of CONNECT, which does nothing if there are channels.
first_connect : Bool → Creation → Server → Server
unfolding run_consumers update_status
first_connect false creation s = s
first_connect true creation s =
    let s1 = record s { once_connect = false } in
    if is_empty s1.channels then run_consumers creation (update_status connected none s1) else s1

-- `registerConnectListener`.
each_connect : Server → Server
unfolding update_status
each_connect s = update_status connected none (record s { connection_attempts = 0 })

on_connect : Creation → Server → Server
unfolding first_connect each_connect
on_connect creation s = each_connect (first_connect s.once_connect creation s)

-- `registerDisconnectListener`.
on_disconnect : Option String → Server → Server
unfolding update_status
on_disconnect none s = update_status disconnected none s
on_disconnect (some e) s = update_status crashed (some e) s

-- `++this.connectionAttempts >= maxConnectionAttempts`.
count_attempt : ℕ → String → Server → Server
unfolding close call_back
count_attempt most e s =
    let s1 = record s { connection_attempts = s.connection_attempts + 1 } in
    if leb most s1.connection_attempts then call_back (connect_failed e) (close s1) else s1

attempt_failed : MaxAttempts → String → Server → Server
unfolding count_attempt
attempt_failed infinite e s = s
attempt_failed (at_most most) e s = if is_empty s.channels then count_attempt most e s else s

-- The `once` listener of connectFailed.
first_failed : Option String → Server → Server
unfolding update_status attempt_failed call_back
first_failed (some e) s = attempt_failed s.max_attempts e (update_status crashed (some e) s)
first_failed none s = call_back disconnected_from_rmq (update_status disconnected none s)

on_failed : Bool → Option String → Server → Server
unfolding first_failed
on_failed false error s = s
on_failed true error s = first_failed error (record s { once_failed = false })

pub data Event : Type 0 where
  connects : (creation : Creation) → Event
  disconnects : (error : Option String) → Event
  connect_fails : (error : Option String) → Event
  closes : Event

emit : Bool → Event → Server → Server
unfolding on_connect on_disconnect on_failed
emit true (connects creation) s = on_connect creation s
emit true (disconnects error) s = on_disconnect error s
emit true (connect_fails error) s = on_failed s.once_failed error s
emit client closes s = close s
emit false e s = s

pub step : Server → Event → Server
unfolding emit
step s e = emit s.client e s

unfoldable pub run : Server → List Event → Server
run s [] = s
run s (e ∷ es) = run (step s e) es
