-- ===== src/Rabbit/Client.antt =====
-- The connection of `RabbitMqClientProxy`
-- (src/modules/rabbit-mq/rabbit-mq-client/services/rabbit-mq-client.proxy.ts): connect, createChannel, the
-- listeners, close, and the waiting part of `send`, as the turns of an event loop. A channel is known by its number in
-- the order of creation. Of rxjs's stream `connection$` it is kept what it waits for and how it first
-- ended. Events of amqp-connection-manager come while there is a client; URLs are the texts that
-- `JSON.stringify(parseUrl(url))` gives of them. `closing_client` is the call of the client's `close`, with
-- which amqp-connection-manager closes the connection and every channel of it. The client is closed at the end of `close`, whose two
-- awaits are taken as one.
use demo_hybrid_microservice.Common.{
  ℕ, zero, suc, ◌-◌, String, Bool, true, false, not, ◌||◌, List, [], ◌∷◌, ◌++◌, Option, none, some,
  if◌then◌else◌, ◌==◌, leb, length, str_eq,
}
use demo_hybrid_microservice.Rabbit.Client.Publishing.{Call}
pub mod Publishing
pub mod Ready
pub mod Channels
pub mod Leak
pub mod Setups

-- `connectionPromise`, and the promises that calls wait for: the first value of a `connection$`, the
-- set-up of a channel, or one that has ended.
pub data Promise : Type 0 where
  of_stream of_channel : ℕ → Promise
  rejected : String → Promise
  resolved : Promise

-- `connection$`: not there, waiting for its first event, waiting for a channel's set-up, having had its
-- first value, or ended with an error.
pub data Stream : Type 0 where
  absent awaiting flowing broken : Stream
  making : ℕ → Stream

-- What goes on after a connection: nothing, or the call of the channel that `dispatchMessage` makes.
abbrev pub Job : Type 0
Job = Option Call

pub data Effect : Type 0 where
  published : ℕ → Call → Effect
  no_channel : Effect
  failed : String → Effect
  closing_channel : ℕ → Effect
  closing_client : Effect

pub record Client : Type 0 where
  pub client : Bool
  pub channel : Option ℕ
  pub created : ℕ
  -- the channels whose set-up was completed
  pub set_up : List ℕ
  pub is_initial_connect : Bool
  pub promise : Option Promise
  -- how many streams there have been, the last of them, and how those that ended have ended first
  pub generation : ℕ
  pub stream : Stream
  pub ended : List (ℕ × Option String)
  pub waiting : List (Promise × Job)
  pub closing : ℕ
  pub pending_event_listeners : List ℕ
  pub listeners : List ℕ
  pub log : List Effect

pub data Event : Type 0 where
  -- `connect`, or `send` with a message that it accepts
  called : Job → Event
  -- `on`
  on_called : ℕ → Event
  connects : Event
  disconnects errors : String → Event
  connect_fails : Option String → String → Event
  set_up_ends : ℕ → Event
  -- the waiting call at this place goes on, if its promise has ended
  goes_on : ℕ → Event
  close_called close_ends : Event

abbrev pub new_client : Client
new_client = record {
  client = false;
  channel = none;
  created = 0;
  set_up = [];
  is_initial_connect = true;
  promise = none;
  generation = 0;
  stream = absent;
  ended = [];
  waiting = [];
  closing = 0;
  pending_event_listeners = [];
  listeners = [];
  log = [];
}

abbrev pub tell : Effect → Client → Client
tell e s = record s { log = s.log ++ e ∷ [] }

abbrev pub wait : Promise → Job → Client → Client
wait p job s = record s { waiting = s.waiting ++ (p, job) ∷ [] }

-- `connectionPromise ?? Promise.resolve()`
abbrev pub or_resolved : Option Promise → Promise
or_resolved none = resolved
or_resolved (some p) = p

-- `connect`
abbrev pub connect : Bool → Job → Client → Client
connect true job s = wait (or_resolved s.promise) job s
connect false job s = wait (of_stream s.generation) job (record s {
  client = true;
  promise = some (of_stream s.generation);
  generation = suc s.generation;
  stream = awaiting;
  listeners = s.pending_event_listeners;
  pending_event_listeners = [];
})

abbrev pub on : Bool → ℕ → Client → Client
on true callback s = record s { listeners = s.listeners ++ callback ∷ [] }
on false callback s = record s {
  pending_event_listeners = s.pending_event_listeners ++ callback ∷ [];
}

-- `createChannel`, up to its promise.
abbrev pub create_channel : Client → Client
create_channel s = record s { channel = some s.created; created = suc s.created }

-- The listener that `registerConnectListener` adds, on `isInitialConnect` and the channel.
abbrev pub connect_listener : Bool → Option ℕ → Client → Client
connect_listener false channel s = record s { promise = some resolved }
connect_listener true (some c) s = record s { is_initial_connect = false }
connect_listener true none s =
    create_channel (record s { is_initial_connect = false; promise = some (of_channel s.created) })

-- The end of the current stream's first value.
abbrev pub end_stream : Option String → Stream → Client → Client
end_stream outcome stream s = record s {
  stream = stream;
  ended = s.ended ++ (s.generation - 1, outcome) ∷ [];
}

-- What the stream does with a connect event: the first one is followed by `createChannel`, and later
-- ones are values of the stream.
abbrev pub stream_connects : Stream → Client → Client
stream_connects awaiting s = create_channel (record s { stream = making s.created })
stream_connects (making c) s = end_stream none (making c) s
stream_connects absent s = s
stream_connects flowing s = s
stream_connects broken s = s

-- An error of the stream, which it takes no more after its first event.
abbrev pub stream_fails : Stream → String → Client → Client
stream_fails awaiting e s = end_stream (some e) broken s
stream_fails absent e s = s
stream_fails flowing e s = s
stream_fails broken e s = s
stream_fails (making c) e s = s

-- The listener that `registerDisconnectListener` adds.
abbrev pub disconnect_listener : Bool → String → Client → Client
disconnect_listener true e s = s
disconnect_listener false e s = record s { promise = some (rejected e) }

-- `urls.indexOf(search) >= urls.length - 1`, where a URL that is not among them has the index -1.
abbrev pub is_last : List String → String → Bool
is_last [] url = true
is_last (u ∷ []) url = str_eq u url
is_last (u ∷ v ∷ us) url = if str_eq u url then false else is_last (v ∷ us) url

-- Whether `retry` gives up on a failed connection.
abbrev pub gives_up : List String → Option String → Bool
gives_up urls none = true
gives_up urls (some url) = is_last urls url

abbrev pub making_ends : ℕ → Stream → Client → Client
making_ends c (making d) s = if c == d then end_stream none flowing s else s
making_ends c absent s = s
making_ends c awaiting s = s
making_ends c flowing s = s
making_ends c broken s = s

abbrev pub contains : ℕ → List ℕ → Bool
contains n [] = false
contains n (m ∷ ms) = m == n || contains n ms

abbrev pub first_end : ℕ → List (ℕ × Option String) → Option (Option String)
first_end g [] = none
first_end g ((h, o) ∷ rest) = let others = first_end g rest in if h == g then some o else others

-- How a promise has ended, if it has.
abbrev pub settled : Promise → Client → Option (Option String)
settled resolved s = some none
settled (rejected e) s = some (some e)
settled (of_channel c) s = if contains c s.set_up then some none else none
settled (of_stream g) s = first_end g s.ended

-- `dispatchMessage` on the channel.
abbrev pub dispatch : Job → Option ℕ → Client → Client
dispatch none channel s = s
dispatch (some call) none s = tell no_channel s
dispatch (some call) (some c) s = tell (published c call) s

abbrev pub go_on : Option (Option String) → Job → List (Promise × Job) → Client → Client
go_on none job rest s = s
go_on (some (some e)) job rest s = tell (failed e) (record s { waiting = rest })
go_on (some none) job rest s = dispatch job s.channel (record s { waiting = rest })

-- The call at a place, between those before it and those after it.
abbrev pub go_on_at : ℕ → List (Promise × Job) → List (Promise × Job) → Client → Client
go_on_at n before [] s = s
go_on_at zero before ((p, job) ∷ after) s = go_on (settled p s) job (before ++ after) s
go_on_at (suc n) before (w ∷ after) s = go_on_at n (before ++ w ∷ []) after s

abbrev pub close_channel : Option ℕ → Client → Client
close_channel none s = s
close_channel (some c) s = tell (closing_channel c) s

abbrev pub close_ended : ℕ → Client → Client
close_ended zero s = s
close_ended (suc n) s = record s {
  closing = n;
  channel = none;
  client = false;
  pending_event_listeners = [];
  is_initial_connect = true;
  log = s.log ++ (if s.client then closing_client ∷ [] else []);
}

module _ (urls : List String) where
  abbrev pub when_client : Bool → Event → Client → Client
  when_client false e s = s
  when_client true connects s =
      let t = connect_listener s.is_initial_connect s.channel s in stream_connects t.stream t
  when_client true (disconnects e) s =
      stream_fails s.stream e (disconnect_listener s.is_initial_connect e s)
  when_client true (connect_fails url e) s =
      if gives_up urls url then stream_fails s.stream e s else s
  when_client true (errors e) s = stream_fails s.stream e s
  when_client true _ s = s

  unfoldable pub step : Event → Client → Client
  step (called job) s = connect s.client job s
  step (on_called callback) s = on s.client callback s
  step (set_up_ends c) s = making_ends c s.stream (record s { set_up = c ∷ s.set_up })
  step (goes_on n) s = go_on_at n [] s.waiting s
  step close_called s = close_channel s.channel (record s { closing = suc s.closing })
  step close_ends s = close_ended s.closing s
  step connects s = when_client s.client connects s
  step (disconnects e) s = when_client s.client (disconnects e) s
  step (connect_fails url e) s = when_client s.client (connect_fails url e) s
  step (errors e) s = when_client s.client (errors e) s

  unfoldable pub run : List Event → Client → Client
  run [] s = s
  run (e ∷ es) s = run es (step e s)
