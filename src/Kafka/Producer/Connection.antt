-- ===== src/Kafka/Producer/Connection.antt =====
-- `connect`, `close`, `send`, `sendBatch` and `unwrap` of `KafkaClientProxy` as the turns of an event
-- loop. A producer of kafkajs is known by its number in the order of creation; its `connect` and
-- `disconnect` end, well or with an error, whenever kafkajs says. `connect`, and the deferred call of it in `send`,
-- run at once up to their first await.
use demo_hybrid_microservice.Common.{
  ℕ, zero, suc, String, Bool, true, false, List, [], ◌∷◌, ◌++◌, Option, none, some, if◌then◌else◌,
  Result, ok, error, ◌==◌,
}
use demo_hybrid_microservice.Kafka.Producer.{ProducerRecord}
pub mod Kept
pub mod Stuck

-- What goes on after a connection: nothing, for a call of `connect`, or the making of a record and its
-- sending, for a request that `send` or `sendBatch` accepted.
abbrev pub Job : Type 0
Job = Option (Result ProducerRecord)

pub data Effect : Type 0 where
  connecting disconnecting : ℕ → Effect
  -- `send` or `sendBatch` of the producer
  handed : ℕ → ProducerRecord → Effect
  -- a promise or an observable ends with an error
  failed : String → Effect

pub record Proxy : Type 0 where
  pub client : Bool
  pub producer : Option ℕ
  -- how many producers there have been
  pub created : ℕ
  -- calls that wait for the `connect` of a producer that they created
  pub waiting : List (ℕ × Job)
  -- calls that have their connection and go on in a later turn
  pub ready : List Job
  -- how many calls of `close` wait
  pub closing : ℕ
  -- the producers whose `connect` ended well
  pub connected : List ℕ
  pub log : List Effect

pub data Event : Type 0 where
  -- `connect`, or `send` and `sendBatch` with a request that they accept
  called : Job → Event
  -- `send` or `sendBatch` with a request that they do not accept
  refused : Event
  -- the promise of a producer's `connect` ends, well or with an error
  connect_ends : ℕ → Option String → Event
  -- the first call that has its connection goes on
  turn : Event
  close_called : Event
  -- the promise of `disconnect` that the first waiting `close` waits for ends
  close_ends : Option String → Event

abbrev pub new_proxy : Proxy
new_proxy = record {
  client = false;
  producer = none;
  created = 0;
  waiting = [];
  ready = [];
  closing = 0;
  connected = [];
  log = [];
}

abbrev pub tell : Effect → Proxy → Proxy
tell e s = record s { log = s.log ++ e ∷ [] }

-- `connect`, called for a job.
abbrev pub connect : Job → Option ℕ → Proxy → Proxy
connect job (some p) s = record s { ready = s.ready ++ job ∷ [] }
connect job none s = tell (connecting s.created) (record s {
  client = true;
  producer = some s.created;
  created = suc s.created;
  waiting = s.waiting ++ (s.created, job) ∷ [];
})

-- The call that waits for a producer, and the other ones.
abbrev pub take_waiting : ℕ → List (ℕ × Job) → Option Job × List (ℕ × Job)
take_waiting p [] = (none, [])
take_waiting p ((q, job) ∷ ws) =
    let rest = take_waiting p ws in if q == p then (some job, ws) else (rest.0, (q, job) ∷ rest.1)

abbrev pub connect_ended : ℕ → Option String → Option Job → List (ℕ × Job) → Proxy → Proxy
connect_ended p outcome none ws s = s
connect_ended p none (some job) ws s = record s {
  waiting = ws;
  ready = s.ready ++ job ∷ [];
  connected = p ∷ s.connected;
}
connect_ended p (some e) (some job) ws s = tell (failed e) (record s { waiting = ws })

-- The rest of `dispatchMessage` and `dispatchBatchMessage`, once the messages are made.
abbrev pub dispatch : Result ProducerRecord → Option ℕ → Effect
dispatch (error e) producer = failed e
dispatch (ok r) none = failed "Kafka producer is not connected"
dispatch (ok r) (some p) = handed p r

abbrev pub go_on : List Job → Proxy → Proxy
go_on [] s = s
go_on (none ∷ jobs) s = record s { ready = jobs }
go_on (some r ∷ jobs) s = tell (dispatch r s.producer) (record s { ready = jobs })

abbrev pub disconnect : Option ℕ → Proxy → Proxy
disconnect none s = s
disconnect (some p) s = tell (disconnecting p) s

abbrev pub close : Proxy → Proxy
close s = disconnect s.producer (record s { closing = suc s.closing })

abbrev pub close_ended : ℕ → Option String → Proxy → Proxy
close_ended zero outcome s = s
close_ended (suc n) none s = record s { closing = n; producer = none; client = false }
close_ended (suc n) (some e) s = tell (failed e) (record s { closing = n })

unfoldable pub step : Event → Proxy → Proxy
step (called job) s = connect job s.producer s
step refused s = tell (failed "InvalidMessageException") s
step (connect_ends p outcome) s =
    let found = take_waiting p s.waiting in connect_ended p outcome found.0 found.1 s
step turn s = go_on s.ready s
step close_called s = close s
step (close_ends outcome) s = close_ended s.closing outcome s

unfoldable pub run : List Event → Proxy → Proxy
run [] s = s
run (e ∷ es) s = run es (step e s)

-- `unwrap`
abbrev pub unwrap : Proxy → Result (Option ℕ)
unwrap s =
    if s.client
    then ok s.producer
    else error
        "Not initialized. Please call the \"connect/send\" method before accessing the server."
