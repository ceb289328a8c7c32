-- ===== src/Logger/Nest.antt =====
-- `NestElkLoggerService`, the logger that NestJS writes to:
-- src/modules/elk-logger/services/nest-elk-logger.service.ts. The regular expression of `isStackFormat`,
-- the splitting of a stack into trimmed lines that are not empty, and the classes that are not looked
-- into are parameters; what `print` makes of an entry is left out.
pub mod Arguments
use demo_hybrid_microservice.Common.{
  ℕ, String, Bool, true, false, ◌||◌, List, [], ◌∷◌, ◌++◌, map, Option, none, some, if◌then◌else◌,
  str_eq, length, leb, ◌==◌, any_of,
}

pub data LogLevel : Type 0 where
  trace debug info warn error fatal : LogLevel

pub data NestLogLevel : Type 0 where
  verbose debug log warn error fatal : NestLogLevel

-- A level that NestJS has not defined gives `DEBUG` too.
abbrev pub nest_elk_log_level_adapter : NestLogLevel → LogLevel
nest_elk_log_level_adapter NestLogLevel.verbose = LogLevel.debug
nest_elk_log_level_adapter NestLogLevel.debug = LogLevel.debug
nest_elk_log_level_adapter NestLogLevel.log = LogLevel.info
nest_elk_log_level_adapter NestLogLevel.warn = LogLevel.warn
nest_elk_log_level_adapter NestLogLevel.error = LogLevel.error
nest_elk_log_level_adapter NestLogLevel.fatal = LogLevel.fatal

-- The value of a property of an object, where `failure` is an `Error` with its message.
pub data Item : Type 0 where
  text failure : String → Item
  other : ℕ → Item

-- What can be logged: a class by its name, a function by what it gives, an object by its properties in
-- order. `other` is any other value with its string, which null and undefined do not have.
pub data Message : Type 0 where
  class_of text failure : String → Message
  callback : Option String → Message
  object : (ignored : Bool) → List (String × Item) → Message
  other : Option String → Message

pub data PayloadValue : Type 0 where
  whole : Message → PayloadValue
  item : Item → PayloadValue
  errors stack_lines : List String → PayloadValue

abbrev pub Payload : Type 0
Payload = List (String × PayloadValue)

-- `payload[k] = v`
abbrev pub set : String → PayloadValue → Payload → Payload
set k v [] = (k, v) ∷ []
set k v (p ∷ ps) = if str_eq k p.0 then (k, v) ∷ ps else p ∷ set k v ps

-- `{ messages, stack, context }`
pub record Parts : Type 0 where
  pub messages : List Message
  pub stack : Option String
  pub context : Option Message

-- The last element and those before it.
abbrev pub split_last : {A : Type 0} → A → List A → List A × A
split_last a [] = ([], a)
split_last a (b ∷ bs) = let (init, last) = split_last b bs in (a ∷ init, last)

-- A context that is the last of several arguments.
abbrev with_context : List Message → List Message → Message → Parts
with_context args init (text c) = record { messages = init; stack = none; context = some (text c) }
with_context args init _ = record { messages = args; stack = none; context = none }

pub get_context_and_messages_to_print : List Message → Parts
get_context_and_messages_to_print [] = record { messages = []; stack = none; context = none }
get_context_and_messages_to_print (a ∷ []) = record {
  messages = a ∷ [];
  stack = none;
  context = none;
}
get_context_and_messages_to_print (a ∷ b ∷ bs) =
    let (init, last) = split_last a (b ∷ bs) in with_context (a ∷ b ∷ bs) init last

abbrev with_stack : Parts → List Message → Message → Parts
with_stack p init (text s) = record { messages = init; stack = some s; context = p.context }
with_stack p init _ = p

-- A stack that is the last of several messages.
abbrev pub take_stack : Parts → List Message → Parts
take_stack p [] = p
take_stack p (a ∷ []) = p
take_stack p (a ∷ b ∷ bs) = let (init, last) = split_last a (b ∷ bs) in with_stack p init last

module _ (is_stack : String → Bool) where
  -- The second of two arguments: what is no stack is taken for the context, a string or not.
  abbrev pub second_argument : Message → Message → Parts
  second_argument a (text s) =
      if is_stack s
      then record { messages = a ∷ []; stack = some s; context = none }
      else record { messages = a ∷ []; stack = none; context = some (text s) }
  second_argument a b = record { messages = a ∷ []; stack = none; context = some b }

  pub get_context_and_stack_and_messages_to_print : List Message → Parts
  unfolding get_context_and_messages_to_print
  get_context_and_stack_and_messages_to_print (a ∷ b ∷ []) = second_argument a b
  get_context_and_stack_and_messages_to_print args =
      let p = get_context_and_messages_to_print args in take_stack p p.messages

-- What `logFieldsComposition` has found so far.
record Found : Type 0 where
  message : Option String
  found_errors : List String
  payload : Payload

abbrev or_message : Option String → String → Option String
or_message none s = some s
or_message (some m) s = some m

-- The loop over `Object.entries`: the first text or error gives the message.
abbrev take_item : Found → String → Item → Found
take_item f k (failure e) = record f {
  message = or_message f.message e;
  found_errors = f.found_errors ++ e ∷ [];
}
take_item f k (other n) = record f { payload = set k (item (other n)) f.payload }
take_item f k (text s) = elim f.message [
  | none ↦ record f { message = some s }
  | some m ↦ record f { payload = set k (item (text s)) f.payload }
]

abbrev take_items : Found → List (String × Item) → Found
take_items f [] = f
take_items f (e ∷ es) = take_items (take_item f e.0 e.1) es

abbrev with_errors : List String → Payload → Payload
with_errors [] p = p
with_errors (e ∷ es) p = set "errors" (errors (e ∷ es)) p

abbrev nothing_found : Found
nothing_found = record { message = none; found_errors = []; payload = [] }

-- The message, if there is one, and the payload.
abbrev compose : Message → Option String × Payload
compose (class_of name) = (some name, [])
compose (callback o) = (o, [])
compose (text s) = (some s, [])
compose (failure e) = (some e, set "error" (whole (failure e)) [])
compose (object true es) = (none, set "message" (whole (object true es)) [])
compose (object false es) =
    let f = take_items nothing_found es in (f.message, with_errors f.found_errors f.payload)
compose (other o) = (o, [])

-- `ILogFields`, as far as it is set here.
pub record LogFields : Type 0 where
  pub level : LogLevel
  pub module_name : Message
  pub message : String
  pub payload : Payload

abbrev or_text : Option String → String → String
or_text none s = s
or_text (some t) s = t

abbrev or_module : Option Message → Message
or_module none = text "NestElkLoggerService"
or_module (some m) = m

module _ (is_stack : String → Bool) (lines : String → List String) where
  abbrev with_error_stack : Option String → Payload → Payload
  with_error_stack none p = p
  with_error_stack (some s) p =
      if str_eq s "" then p else set "errorStack" (stack_lines (lines s)) p

  pub log_fields_composition : LogLevel → Message → Option String → Option Message → LogFields
  log_fields_composition level m stack context =
      let (message, payload) = compose m in
      record {
        level = level;
        module_name = or_module context;
        message = or_text message "Message as object";
        payload = with_error_stack stack payload;
      }

  -- `log`, `error`, `warn`, `debug`, `verbose` and `fatal`.
  abbrev pub parts_of : NestLogLevel → List Message → Parts
  parts_of NestLogLevel.error args = get_context_and_stack_and_messages_to_print is_stack args
  parts_of _ args = get_context_and_messages_to_print args

  abbrev same_level : LogLevel → LogLevel → Bool
  same_level LogLevel.trace LogLevel.trace = true
  same_level LogLevel.debug LogLevel.debug = true
  same_level LogLevel.info LogLevel.info = true
  same_level LogLevel.warn LogLevel.warn = true
  same_level LogLevel.error LogLevel.error = true
  same_level LogLevel.fatal LogLevel.fatal = true
  same_level _ _ = false

  -- `isLogLevelEnabled`: no levels stand for all.
  abbrev pub is_log_level_enabled : List LogLevel → LogLevel → Bool
  is_log_level_enabled [] level = true
  is_log_level_enabled (l ∷ ls) level = any_of (same_level level) (l ∷ ls)

  -- `_log`: the entries that are printed.
  abbrev pub print_all : List LogLevel → LogLevel → Parts → List LogFields
  print_all levels level p =
      if is_log_level_enabled levels level
      then map (λ m. log_fields_composition level m p.stack p.context) p.messages
      else []

  pub log_at : List LogLevel → NestLogLevel → List Message → List LogFields
  log_at levels level args =
      print_all levels (nest_elk_log_level_adapter level) (parts_of level args)
