-- ===== src/Logger/OnMethod/Asked.antt =====
-- The entries that the options of a logged method ask for.
use Prim.Native.String.{◌++◌ as concat}
use demo_hybrid_microservice.Common.{
  ◌≡◌, refl, String, Bool, true, false, List, [], ◌∷◌, if◌then◌else◌, Bool-cases, inl, inr,
  Property, missing, undefined, value, spread, some, Option, none, Result, ok, error,
}
use demo_hybrid_microservice.Logger.OnMethod.{
  Fields, LogEvent, LogEntry, LoggerParams, LoggerOption, function, unset, given, before_call,
  after_call, throw_call, finally_call, use_logger_params, handle_on_method, Given, flag, params,
  LogLevel, info, debug, error_level, LogData, default_params, default_level, default_message,
  resolve_given, or_default, property,
}

abbrev pub made : Result (Option LoggerParams) → Option LoggerParams
made (ok p) = p
made (error e) = none

abbrev pub said : String → LogEvent → Result (Option LoggerParams) → List LogEntry
said name event r = handle_on_method name event (made r)

-- What is to be written of each event, if its option says nothing else.
abbrev level_of : LogEvent → LogLevel
level_of before_call = info
level_of after_call = info
level_of throw_call = error_level
level_of finally_call = debug

abbrev ending : LogEvent → String
ending before_call = " called"
ending after_call = " success"
ending throw_call = " failed"
ending finally_call = " complete"

abbrev pub is_finally : LogEvent → Bool
is_finally finally_call = true
is_finally before_call = false
is_finally after_call = false
is_finally throw_call = false

-- An option's own part in place of the event's; an undefined one is given, but empty.
abbrev own : {A : Type 0} → A → A → Property A → A
own absent d missing = d
own absent d undefined = absent
own absent d (value a) = a

abbrev own_data_of : LogData → Property LogData → Option LogData
own_data_of d missing = some d
own_data_of d undefined = none
own_data_of d (value a) = some a

-- The entry that an option asks for, of an event of a call with such fields and data.
module _ (name : String) (event : LogEvent) (fields : Fields) (d : LogData) where
  abbrev of_params : LoggerParams → LogEntry
  of_params p = record {
    module_name = name;
    fields = own [] fields p.fields;
    level = own (level_of event) (level_of event) p.level;
    message = own (concat name (ending event)) (concat name (ending event)) p.message;
    data_of = own_data_of d p.data_of;
  }

  abbrev of_given : Given → List LogEntry
  of_given (flag false) = []
  of_given (flag true) =
      of_params (record { fields = missing; level = missing; message = missing; data_of = missing })
      ∷ []
  of_given (params p) = of_params p ∷ []

  abbrev pub asked : LoggerOption → List LogEntry
  asked unset = if is_finally event then [] else of_given (flag true)
  asked (given g) = of_given g
  asked (function (ok g)) = of_given g
  asked (function (error e)) = []

  default_level-eq : default_level event ≡ level_of event
  default_level-eq = by_event event
    where
      by_event : (e : LogEvent) → default_level e ≡ level_of e
      by_event before_call = refl
      by_event after_call = refl
      by_event throw_call = refl
      by_event finally_call = refl

  default_message-eq : default_message name event ≡ concat name (ending event)
  default_message-eq = by_event event
    where
      by_event : (e : LogEvent) → default_message name e ≡ concat name (ending e)
      by_event before_call = refl
      by_event after_call = refl
      by_event throw_call = refl
      by_event finally_call = refl

  said_given :
      (g : Given) → said name event (ok (resolve_given g (default_params fields d))) ≡ of_given g
  said_given (flag false) = refl
  said_given (flag true) = rw (default_level-eq, default_message-eq) refl
  said_given (params p) =
      rw
        (
          by_fields p.fields,
          by_default (default_level event) p.level,
          by_default (default_message name event) p.message,
          by_data p.data_of,
          default_level-eq,
          default_message-eq,
        )
        refl
    where
      by_fields : (x : Property Fields) → or_default (spread (value fields) x) [] ≡ own [] fields x
      by_fields missing = refl
      by_fields undefined = refl
      by_fields (value a) = refl

      by_default :
          {A : Type 0} (a : A) (x : Property A) → or_default (spread missing x) a ≡ own a a x
      by_default a missing = refl
      by_default a undefined = refl
      by_default a (value b) = refl

      by_data : (x : Property LogData) → property (spread (value d) x) ≡ own_data_of d x
      by_data missing = refl
      by_data undefined = refl
      by_data (value a) = refl

  pub said-asked :
      (o : LoggerOption)
      → said name event (use_logger_params o (default_params fields d) (is_finally event)) ≡ asked o
  unfolding use_logger_params
  said-asked unset = elim (Bool-cases (is_finally event)) [
    | inl last ↦ rw last refl
    | inr other ↦ rw other (said_given (flag true))
  ]
  said-asked (given g) = said_given g
  said-asked (function (ok g)) = said_given g
  said-asked (function (error e)) = refl
