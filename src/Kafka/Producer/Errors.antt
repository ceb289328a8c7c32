-- ===== src/Kafka/Producer/Errors.antt =====
-- `KafkaClientErrorHandler` (`src/modules/kafka/kafka-client/filters/kafka-client.error.handler.ts`) with
-- the errors it makes (`src/modules/kafka/kafka-client/errors`), and what `KafkaClientService.request`
-- (`services/kafka-client.service.ts`) does with a request's outcome. The cause that an error keeps and
-- the fields of log entries are left out.
use demo_hybrid_microservice.Common.{
  ℕ, ℤ, String, Bool, true, false, ◌||◌, List, [], ◌∷◌, ◌++◌, Option, none, some, if◌then◌else◌,
  includes, str_eq,
}
pub mod Causes

-- The class of kafkajs that an error is an instance of, the first one of those that the handler asks
-- for in its order; `plain` is any other.
pub data KafkaClass : Type 0 where
  lock_timeout request_timeout number_of_retries_exceeded connection timeout non_retriable plain :
      KafkaClass

pub data StatusCode : Type 0 where
  number : ℤ → StatusCode
  name : String → StatusCode

-- What the handler reads of an error; `code` and `type` are there in some classes.
pub record Info : Type 0 where
  pub message : String
  pub name : String
  pub code : Option StatusCode
  pub type_name : Option String

-- An exception: an error of kafkajs without a cause or with one, an aggregate of such errors, a timeout
-- of rxjs or of the repository, another `Error`, a string, an object with or without a message, or
-- anything else.
pub data Exception : Type 0 where
  kafka_error : KafkaClass → Info → Exception
  caused_error : KafkaClass → Info → Exception → Exception
  aggregate_error timeout_error other_error : Info → Exception
  text : String → Exception
  object : Option String → Exception
  unknown : Exception

-- `getCause`, where the parent is the error that the exception is the cause of.
unfoldable pub get_cause : Exception → Option Exception → Exception
get_cause (caused_error c i e) parent = get_cause e (some (caused_error c i e))
get_cause (kafka_error c i) parent = kafka_error c i
get_cause (aggregate_error i) none = aggregate_error i
get_cause (aggregate_error i) (some parent) = parent
get_cause (timeout_error i) none = timeout_error i
get_cause (timeout_error i) (some parent) = parent
get_cause (other_error i) none = other_error i
get_cause (other_error i) (some parent) = parent
get_cause (text s) none = text s
get_cause (text s) (some parent) = parent
get_cause (object m) none = object m
get_cause (object m) (some parent) = parent
get_cause unknown none = unknown
get_cause unknown (some parent) = parent

pub data Marker : Type 0 where
  request external internal error retry success : Marker

-- `KafkaClientError` and its subclasses, which differ in the name and the marker.
pub record ClientError : Type 0 where
  pub message : String
  pub status_code : StatusCode
  pub marker : Marker
  pub name : String

abbrev or_default : String → Option String → String
or_default d none = d
or_default d (some s) = s

abbrev or_unknown : Option StatusCode → StatusCode
or_unknown none = name "UnknownError"
or_unknown (some c) = c

abbrev pub external_error : Option String → Option StatusCode → ClientError
external_error message code = record {
  message = or_default "External Kafka Server Error" message;
  status_code = or_unknown code;
  marker = external;
  name = "Kafka Client External Error";
}

abbrev pub internal_error : Option String → Option StatusCode → ClientError
internal_error message code = record {
  message = or_default "Internal Kafka Server Error" message;
  status_code = or_unknown code;
  marker = internal;
  name = "Kafka Client Internal Error";
}

abbrev pub new_timeout_error : Option String → ClientError
new_timeout_error message = record {
  message = or_default "Kafka Server Timeout Error" message;
  status_code = name "timeout";
  marker = external;
  name = "Kafka Client TimeoutError";
}

-- `cause['code'] ?? cause['type'] ?? cause.name`
abbrev code_or_name : Option StatusCode → Option String → String → StatusCode
code_or_name (some c) t n = c
code_or_name none (some t) n = name t
code_or_name none none n = name n

abbrev pub status_of : Info → StatusCode
status_of i = code_or_name i.code i.type_name i.name

abbrev pub is_timeout : KafkaClass → Info → Bool
is_timeout lock_timeout i = true
is_timeout request_timeout i = true
is_timeout number_of_retries_exceeded i = true
is_timeout connection i = str_eq i.message "Connection timeout"
is_timeout timeout i = true
is_timeout non_retriable i = false
is_timeout plain i = false

abbrev pub internal_names : List String
internal_names =
    "KafkaJSInvariantViolation" ∷ "KafkaJSInvalidVarIntError" ∷ "KafkaJSInvalidLongError"
    ∷ "KafkaJSBrokerNotFound" ∷ "KafkaJSSASLAuthenticationError" ∷ "KafkaJSOffsetOutOfRange"
    ∷ "KafkaJSMemberIdRequired" ∷ "KafkaJSServerDoesNotSupportApiKey"
    ∷ "KafkaJSUnsupportedMagicByteInMessageSet" ∷ []

abbrev is_non_retriable : KafkaClass → Bool
is_non_retriable non_retriable = true
is_non_retriable _ = false

abbrev is_invalid_record : Option String → Bool
is_invalid_record none = false
is_invalid_record (some t) = str_eq t "INVALID_RECORD"

abbrev pub is_internal : KafkaClass → Info → Bool
is_internal c i =
    is_non_retriable c || includes internal_names i.name || is_invalid_record i.type_name

-- The branch of `isKafkaJsError`.
abbrev pub of_kafka : KafkaClass → Info → ClientError
of_kafka c i =
    if is_internal c i
    then internal_error (some i.message) (some (status_of i))
    else external_error (some i.message) (some (status_of i))

-- The branches of `handleError`. A string or an object has no cause, and stands for the exception itself.
abbrev pub resolve : Exception → ClientError
resolve (kafka_error c i) =
    if is_timeout c i then new_timeout_error (some i.message) else of_kafka c i
resolve (caused_error c i e) =
    if is_timeout c i then new_timeout_error (some i.message) else of_kafka c i
resolve (aggregate_error i) = of_kafka plain i
resolve (timeout_error i) = new_timeout_error (some i.message)
resolve (other_error i) = internal_error (some i.message) (some (status_of i))
resolve (text s) = internal_error (some s) none
resolve (object m) = internal_error m none
resolve unknown = internal_error none none

unfoldable pub handle_error : Exception → ClientError
handle_error e = resolve (get_cause e none)

pub data LogLevel : Type 0 where
  info warn error_level : LogLevel

pub record LogEntry : Type 0 where
  pub level : LogLevel
  pub message : String
  pub markers : List Marker

-- What `loggingStatus` logs of an error, and of a success, by its options.
abbrev pub log_error : Bool → Bool → Option LogLevel → ClientError → List LogEntry
log_error true is_retry level e = []
log_error false true level e =
    record {
      level = warn;
      message = "Kafka request retry";
      markers = request ∷ retry ∷ e.marker ∷ [];
    }
    ∷ []
log_error false false none e =
    record {
      level = error_level;
      message = "Kafka request failed";
      markers = request ∷ error ∷ e.marker ∷ [];
    }
    ∷ []
log_error false false (some level) e =
    record {
      level = level;
      message = "Kafka request failed";
      markers = request ∷ error ∷ e.marker ∷ [];
    }
    ∷ []

abbrev pub log_success : Bool → Bool → Option LogLevel → List LogEntry
log_success true is_retry level = []
log_success false true level = []
log_success false false none =
    record {
      level = info;
      message = "Kafka request success";
      markers = request ∷ success ∷ external ∷ [];
    }
    ∷ []
log_success false false (some level) =
    record {
      level = level;
      message = "Kafka request success";
      markers = request ∷ success ∷ external ∷ [];
    }
    ∷ []

-- What `KafkaClientService.request` does once the proxy's observable ends: the entries it logs, the labels
-- of KAFKA_EXTERNAL_REQUEST_FAILED, how often it ends its timer, and the error it throws.
pub record Ending : Type 0 where
  pub logs : List LogEntry
  pub failures : List (StatusCode × Marker)
  pub timers_ended : ℕ
  pub thrown : Option ClientError

abbrev failed_with : ClientError → Ending
failed_with e = record {
  logs = log_error false false none e;
  failures = (e.status_code, e.marker) ∷ [];
  timers_ended = 1;
  thrown = some e;
}

abbrev pub end_request : Option Exception → Ending
end_request none = record {
  logs = log_success false false none;
  failures = [];
  timers_ended = 1;
  thrown = none;
}
end_request (some e) = failed_with (handle_error e)
