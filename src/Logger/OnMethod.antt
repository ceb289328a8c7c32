-- ===== src/Logger/OnMethod.antt =====
-- `ElkLoggerOnMethod` with `ElkLoggerEventService`: src/modules/elk-logger/decorators/elk-logger.on-method.ts
-- and services/elk-logger.event-service.ts. A call has two parts: what happens until the method has
-- returned, and, if it has returned a promise, what happens when that settles. What the options give may
-- depend on the arguments of the call at hand. The merging of fields (`LogFieldsHelper.merge`, over a
-- library) and the entry's context are left out: the fields of a call are those that the options give,
-- as keys and texts, and the class's own are `default_fields`.
pub mod Asked
pub mod Entries
use Prim.Native.String.{◌++◌ as concat}
use demo_hybrid_microservice.Common.{
  ℕ, String, Bool, true, false, not, List, [], ◌∷◌, ◌++◌, Option, none, some, Result, ok, error,
  Property, missing, undefined, value, spread, if◌then◌else◌,
}
use demo_hybrid_microservice.Common.Methods.{
  Response, returns, throws, promises, Outcome, resolves, rejects, Answer, returned, threw, pending,
  Settlement, resolved, rejected, never, or_else,
}

abbrev pub Fields : Type 0
Fields = List (String × String)

pub data LogLevel : Type 0 where
  trace debug info warn error_level fatal : LogLevel

-- `IElkLoggerEvent`
pub data LogEvent : Type 0 where
  before_call after_call throw_call finally_call : LogEvent

-- `IOptionLog`: the data that the decorator gives, or the option's own.
pub data LogData : Type 0 where
  call_data : LogData
  result_data error_data : (duration : ℕ) → String → LogData
  duration_data : (duration : ℕ) → LogData
  own_data : Fields → LogData

-- `IElkLoggerParams`
pub record LoggerParams : Type 0 where
  pub fields : Property Fields
  pub level : Property LogLevel
  pub message : Property String
  pub data_of : Property LogData

-- What an option holds, and what it gives if it is a function.
pub data Given : Type 0 where
  flag : Bool → Given
  params : LoggerParams → Given

pub data LoggerOption : Type 0 where
  unset : LoggerOption
  given : Given → LoggerOption
  function : Result Given → LoggerOption

-- `IElkLoggerOnMethod`
pub record OnMethod : Type 0 where
  pub fields : Result Fields
  pub before : LoggerOption
  pub after : String → ℕ → LoggerOption
  pub throw : String → ℕ → LoggerOption
  pub finally : ℕ → LoggerOption

-- `{ ...defaultValue, ...result }`
abbrev pub spread_params : LoggerParams → LoggerParams → LoggerParams
spread_params a b = record {
  fields = spread a.fields b.fields;
  level = spread a.level b.level;
  message = spread a.message b.message;
  data_of = spread a.data_of b.data_of;
}

-- `false` is `none`.
abbrev pub resolve_given : Given → LoggerParams → Option LoggerParams
resolve_given (flag true) default = some default
resolve_given (flag false) default = none
resolve_given (params p) default = some (spread_params default p)

pub use_logger_params : LoggerOption → LoggerParams → Bool → Result (Option LoggerParams)
use_logger_params unset default undefined_as_false =
    ok (if undefined_as_false then none else some default)
use_logger_params (given g) default undefined_as_false = ok (resolve_given g default)
use_logger_params (function (error e)) default undefined_as_false = error e
use_logger_params (function (ok g)) default undefined_as_false = ok (resolve_given g default)

-- What the logger is asked to write.
pub record LogEntry : Type 0 where
  pub module_name : String
  pub fields : Fields
  pub level : LogLevel
  pub message : String
  pub data_of : Option LogData

abbrev pub default_level : LogEvent → LogLevel
default_level before_call = info
default_level after_call = info
default_level throw_call = error_level
default_level finally_call = debug

-- The name takes the place of `[[method]]`; it holds no `$`, which `replace` would read as a pattern.
abbrev pub default_message : String → LogEvent → String
default_message name before_call = concat name " called"
default_message name after_call = concat name " success"
default_message name throw_call = concat name " failed"
default_message name finally_call = concat name " complete"

-- `??`
abbrev pub or_default : {A : Type 0} → Property A → A → A
or_default (value a) default = a
or_default _ default = default

abbrev pub property : {A : Type 0} → Property A → Option A
property (value a) = some a
property _ = none

-- `handleOnMethod`
abbrev pub handle_on_method : String → LogEvent → Option LoggerParams → List LogEntry
handle_on_method name event none = []
handle_on_method name event (some p) =
    let entry : LogEntry = record {
      module_name = name;
      fields = or_default p.fields [];
      level = or_default p.level (default_level event);
      message = or_default p.message (default_message name event);
      data_of = property p.data_of;
    } in
    entry ∷ []

-- The subject, if there is one, and what was logged so far.
pub record Logging : Type 0 where
  pub is_subscribed : Bool
  pub entries : List LogEntry

abbrev pub construct : Logging → Logging
construct s = record s { is_subscribed = true }

abbrev pub on_application_shutdown : Logging → Logging
on_application_shutdown s = record s { is_subscribed = false }

abbrev pub emit : String → LogEvent → Option LoggerParams → Logging → Logging
emit name event p s =
    if s.is_subscribed then record s { entries = s.entries ++ handle_on_method name event p } else s

abbrev pub default_params : Fields → LogData → LoggerParams
default_params fields d = record {
  fields = value fields;
  level = missing;
  message = missing;
  data_of = value d;
}

-- An event is emitted, unless its option throws.
abbrev pub emit_made :
    String → LogEvent → Result (Option LoggerParams) → Logging → Option String × Logging
emit_made name event (error e) s = (some e, s)
emit_made name event (ok p) s = (none, emit name event p s)

abbrev pub join_fields : Option Fields → (Fields → Fields → Fields) → Result Fields → Result Fields
join_fields defaults merge (error e) = error e
join_fields none merge (ok fields) = ok fields
join_fields (some ds) merge (ok fields) = ok (merge ds fields)

-- What the parts of a call share.
module _ (name : String) (default_fields : Option Fields) (merge : Fields → Fields → Fields)
    (m : OnMethod) where
  abbrev pub before_params : Fields → Result (Option LoggerParams)
  before_params fields = use_logger_params m.before (default_params fields call_data) false

  abbrev pub after_params : String → ℕ → Fields → Result (Option LoggerParams)
  after_params v took fields =
      use_logger_params (m.after v took) (default_params fields (result_data took v)) false

  abbrev pub throw_params : String → ℕ → Fields → Result (Option LoggerParams)
  throw_params e took fields =
      use_logger_params (m.throw e took) (default_params fields (error_data took e)) false

  -- The last event is logged only if it is asked for.
  abbrev pub finally_params : ℕ → Fields → Result (Option LoggerParams)
  finally_params took fields =
      use_logger_params (m.finally took) (default_params fields (duration_data took)) true

  abbrev pub log_after : String → ℕ → Fields → Logging → Option String × Logging
  log_after v took fields = emit_made name after_call (after_params v took fields)

  abbrev pub log_throw : String → ℕ → Fields → Logging → Option String × Logging
  log_throw e took fields = emit_made name throw_call (throw_params e took fields)

  abbrev pub log_finally : ℕ → Fields → Logging → Option String × Logging
  log_finally took fields = emit_made name finally_call (finally_params took fields)

  abbrev pub answer_of : String → Option String × Logging → Answer Fields × Logging
  answer_of v (none, s) = (returned v, s)
  answer_of v (some e, s) = (threw e, s)

  abbrev pub returned_after :
      String → ℕ → Fields → Option String × Logging → Answer Fields × Logging
  returned_after v took fields (some e, s) = (threw e, s)
  returned_after v took fields (none, s) = answer_of v (log_after v took fields s)

  -- The `catch` and the `finally` of the method's own call.
  abbrev pub respond : Response → ℕ → Fields → Logging → Answer Fields × Logging
  respond (returns v) took fields s = returned_after v took fields (log_finally took fields s)
  respond (throws e) took fields s =
      let (thrown, s1) = log_throw e took fields s in
      let (finally_thrown, s2) = log_finally took fields s1 in
      (threw (or_else finally_thrown (or_else thrown e)), s2)
  respond promises took fields s = (pending fields, s)

  -- What throws before the call is not caught, and the method is not called.
  abbrev pub call_logged : Response → ℕ → Fields → Option String × Logging → Answer Fields × Logging
  call_logged response took fields (some e, s) = (threw e, s)
  call_logged response took fields (none, s) = respond response took fields s

  abbrev pub with_fields : Response → ℕ → Result Fields → Logging → Answer Fields × Logging
  with_fields response took (error e) s = (threw e, s)
  with_fields response took (ok fields) s =
      call_logged response took fields (emit_made name before_call (before_params fields) s)

  pub wrapped_method : Response → ℕ → Logging → Answer Fields × Logging
  wrapped_method response took s =
      with_fields response took (join_fields default_fields merge m.fields) s

  -- The executor of the wrapper's promise. What its `finally` throws rejects the executor's own promise only.
  abbrev pub rejection : String → Option String → Settlement
  rejection e none = rejected e
  rejection e (some f) = never

  abbrev pub reject : String → ℕ → Fields → Logging → Settlement × Logging
  reject e took fields s =
      let (thrown, s1) = log_throw e took fields s in
      (rejection e thrown, (log_finally took fields s1).1)

  abbrev pub resolve : String → ℕ → Fields → Option String × Logging → Settlement × Logging
  resolve v took fields (none, s) = (resolved v, (log_finally took fields s).1)
  resolve v took fields (some e, s) = reject e took fields s

  pub settle : Outcome → ℕ → Fields → Logging → Settlement × Logging
  settle (resolves v) took fields s = resolve v took fields (log_after v took fields s)
  settle (rejects e) took fields s = reject e took fields s
