-- ===== src/Rabbit/Client/Leak.antt =====
-- The first channel of a RabbitMQ client, which a second one takes the place of.
use demo_hybrid_microservice.Common.{
  ℕ, ◌≡◌, Bool, true, false, Option, none, some, ◌<◌, ◌==◌, any_of,
}
use demo_hybrid_microservice.Rabbit.Client.{Effect, closing_channel, closing_client, Client}

-- With the connection, amqp-connection-manager closes all of its channels.
abbrev pub closes_first : Effect → Bool
closes_first (closing_channel c) = c == 0
closes_first closing_client = true
closes_first _ = false

abbrev pub closes_client : Effect → Bool
closes_client closing_client = true
closes_client _ = false

abbrev is_first : Option ℕ → Bool
is_first none = false
is_first (some c) = c == 0

record IsLeaked (s : Client) : Type 0 where
  unused : is_first s.channel ≡ false
  made : 0 < s.created
  unclosed : any_of closes_first s.log ≡ any_of closes_client s.log
