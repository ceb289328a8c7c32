-- ===== src/Rabbit/Options.antt =====
-- `parseOptions` of src/modules/rabbit-mq/rabbit-mq-server/services/rabbit-mq-server.ts, without the
-- queue options and the exchange arguments, which go to the channel as they are.
use demo_hybrid_microservice.Common.{
  ℕ, String, Bool, false, List, [], ◌∷◌, Option, none, some, if◌then◌else◌, Property, missing,
  undefined, value, spread, str_eq,
}

pub data Routing : Type 0 where
  one : String → Routing
  many : List String → Routing

pub record ConsumerOptions : Type 0 where
  pub queue : Property String
  pub no_assert : Property Bool
  pub no_ack : Property Bool
  pub is_global_prefetch_count : Property Bool
  pub prefetch_count : Property ℕ
  pub routing : Property Routing
  pub exchange : Property String

abbrev pub no_options : ConsumerOptions
no_options = record {
  queue = missing;
  no_assert = missing;
  no_ack = missing;
  is_global_prefetch_count = missing;
  prefetch_count = missing;
  routing = missing;
  exchange = missing;
}

-- NestJS: `Server.getOptionsProp` and the constants of the RMQ transport.
pub record Nest : Type 1 where
  pub get_options_prop : (A : Type 0) → Property A → Option A → Option A
  pub default_queue : String
  pub default_no_assert : Bool
  pub default_no_ack : Bool
  pub default_is_global_prefetch_count : Bool
  pub default_prefetch_count : ℕ

pub record ParsedOptions : Type 0 where
  pub options : ConsumerOptions
  pub queue : String
  pub no_assert : Bool
  pub no_ack : Bool
  pub is_global_prefetch_count : Bool
  pub prefetch_count : Option ℕ
  pub routing : List String

-- `{ ...this.options, ...(extras?.consumer ?? {}) }`.
abbrev pub merge_options : ConsumerOptions → ConsumerOptions → ConsumerOptions
merge_options a b = record {
  queue = spread a.queue b.queue;
  no_assert = spread a.no_assert b.no_assert;
  no_ack = spread a.no_ack b.no_ack;
  is_global_prefetch_count = spread a.is_global_prefetch_count b.is_global_prefetch_count;
  prefetch_count = spread a.prefetch_count b.prefetch_count;
  routing = spread a.routing b.routing;
  exchange = spread a.exchange b.exchange;
}

abbrev or_no_options : Option ConsumerOptions → ConsumerOptions
or_no_options none = no_options
or_no_options (some o) = o

-- `options.routing ?? ['']`, as a list.
abbrev routing_of : Property Routing → List String
routing_of missing = "" ∷ []
routing_of undefined = "" ∷ []
routing_of (value (one r)) = r ∷ []
routing_of (value (many rs)) = rs

-- `x || d` for a string, and the truth of a flag.
abbrev or_string : String → Option String → String
or_string d none = d
or_string d (some s) = if str_eq s "" then d else s

abbrev pub is_true : Option Bool → Bool
is_true none = false
is_true (some b) = b

module _ (nest : Nest) (server : ConsumerOptions) where
  -- The argument is `extras?.consumer`.
  unfoldable pub parse_options : Option ConsumerOptions → ParsedOptions
  parse_options extras =
      let options = merge_options server (or_no_options extras) in
      record {
        options = options;
        queue = or_string nest.default_queue (nest.get_options_prop String options.queue none);
        no_assert =
            is_true (nest.get_options_prop Bool options.no_assert (some nest.default_no_assert));
        no_ack = is_true (nest.get_options_prop Bool options.no_ack (some nest.default_no_ack));
        is_global_prefetch_count = is_true (
            nest.get_options_prop Bool options.is_global_prefetch_count
              (some nest.default_is_global_prefetch_count));
        prefetch_count =
            nest.get_options_prop ℕ options.prefetch_count (some nest.default_prefetch_count);
        routing = routing_of options.routing;
      }
