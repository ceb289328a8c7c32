-- ===== src/Kafka/Producer/Errors/Causes.antt =====
-- Which error of a chain of causes decides how a failed request is reported.
use demo_hybrid_microservice.Common.{
  ◌≡◌, refl, ap, ◌∙◌, Bool, true, false, List, [], ◌∷◌, Option, none, some, if◌then◌else◌,
}
use demo_hybrid_microservice.Kafka.Producer.Errors.{
  KafkaClass, plain, Info, Exception, kafka_error, caused_error, aggregate_error, timeout_error,
  other_error, text, object, unknown, get_cause, ClientError, new_timeout_error, is_timeout,
  resolve, handle_error, Marker, StatusCode, external, internal, name, is_internal, internal_error,
  external_error, status_of, end_request,
}

-- The errors of kafkajs of which each is the cause of the one before, from the exception on.
abbrev pub kafka_chain : Exception → List (KafkaClass × Info)
kafka_chain (kafka_error c i) = (c, i) ∷ []
kafka_chain (caused_error c i e) = (c, i) ∷ kafka_chain e
kafka_chain _ = []

abbrev pub last : {A : Type 0} → List A → Option A
last [] = none
last (a ∷ []) = some a
last (a ∷ b ∷ rest) = last (b ∷ rest)

abbrev or_parent : Option (KafkaClass × Info) → Exception → ClientError
or_parent (some (c, i)) e = resolve (kafka_error c i)
or_parent none e = resolve e

-- The error of kafkajs that decides, if there is one.
abbrev pub innermost : Exception → Option (KafkaClass × Info)
innermost e = last (kafka_chain e)

resolve-get_cause :
    (c : KafkaClass) (i : Info) (e d other : Exception)
    → resolve d ≡ resolve (kafka_error c i)
    → resolve (get_cause e (some d)) ≡ or_parent (last ((c, i) ∷ kafka_chain e)) other
unfolding get_cause
resolve-get_cause c i (kafka_error k j) d other h = refl
resolve-get_cause c i (caused_error k j e) d other h =
    resolve-get_cause k j e (caused_error k j e) other refl
resolve-get_cause c i (aggregate_error j) d other h = h
resolve-get_cause c i (timeout_error j) d other h = h
resolve-get_cause c i (other_error j) d other h = h
resolve-get_cause c i (text s) d other h = h
resolve-get_cause c i (object m) d other h = h
resolve-get_cause c i unknown d other h = h

handle_error-innermost : (e : Exception) → handle_error e ≡ or_parent (innermost e) e
unfolding handle_error get_cause
handle_error-innermost (kafka_error c i) = refl
handle_error-innermost (caused_error c i e) =
    resolve-get_cause c i e (caused_error c i e) (caused_error c i e) refl
handle_error-innermost (aggregate_error i) = refl
handle_error-innermost (timeout_error i) = refl
handle_error-innermost (other_error i) = refl
handle_error-innermost (text s) = refl
handle_error-innermost (object m) = refl
handle_error-innermost unknown = refl

-- Whose fault an error of kafkajs is taken to be, and under which code it is counted.
abbrev pub blamed : KafkaClass → Info → Marker
blamed c i = if is_timeout c i then external else if is_internal c i then internal else external

abbrev pub counted_as : KafkaClass → Info → StatusCode
counted_as c i = if is_timeout c i then name "timeout" else status_of i

-- What is counted of an exception.
abbrev pub labels_of : Option (KafkaClass × Info) → Exception → StatusCode × Marker
labels_of (some (c, i)) e = (counted_as c i, blamed c i)
labels_of none (timeout_error i) = (name "timeout", external)
labels_of none (aggregate_error i) = (status_of i, blamed plain i)
labels_of none (other_error i) = (status_of i, internal)
labels_of none _ = (name "UnknownError", internal)

abbrev pub labels : ClientError → StatusCode × Marker
labels e = (e.status_code, e.marker)

labels-kafka :
    (c : KafkaClass) (i : Info) → labels (resolve (kafka_error c i)) ≡ (counted_as c i, blamed c i)
labels-kafka c i = go (is_timeout c i) (is_internal c i)
  where
    go :
        (late own : Bool)
        → labels (
            if late
            then new_timeout_error (some i.message)
            else if own
            then internal_error (some i.message) (some (status_of i))
            else external_error (some i.message) (some (status_of i)))
          ≡ (
            if late then name "timeout" else status_of i,
            if late then external else if own then internal else external,
          )
    go true own = refl
    go false true = refl
    go false false = refl

labels-last :
    (k : KafkaClass × Info) (ks : List (KafkaClass × Info)) (e : Exception)
    → labels (or_parent (last (k ∷ ks)) e) ≡ labels_of (last (k ∷ ks)) e
labels-last (c, i) [] e = labels-kafka c i
labels-last k (l ∷ ks) e = labels-last l ks e

labels-or_parent : (e : Exception) → labels (or_parent (innermost e) e) ≡ labels_of (innermost e) e
labels-or_parent (kafka_error c i) = labels-kafka c i
labels-or_parent (caused_error c i e) = labels-last (c, i) (kafka_chain e) (caused_error c i e)
labels-or_parent (aggregate_error i) = aggregate (is_internal plain i)
  where
    aggregate :
        (own : Bool)
        → labels (
            if own
            then internal_error (some i.message) (some (status_of i))
            else external_error (some i.message) (some (status_of i)))
          ≡ (status_of i, if own then internal else external)
    aggregate true = refl
    aggregate false = refl
labels-or_parent (timeout_error i) = refl
labels-or_parent (other_error i) = refl
labels-or_parent (text s) = refl
labels-or_parent (object m) = refl
labels-or_parent unknown = refl

-- A Kafka request that fails ends its timer once and throws one error, and is counted once with the code
-- and the marker of the innermost error of kafkajs in the chain of causes, however long that is: as an
-- external timeout, by its own code as internal, or by its own code as external. Without an error of
-- kafkajs, a timeout counts as an external one, an aggregate by its own code as an error of kafkajs
-- would, and any other exception as internal.
pub end_request-labels :
    (e : Exception)
    → let ending = end_request (some e) in
      (ending.timers_ended ≡ 1)
      × (ending.thrown ≡ some (handle_error e))
      × (ending.failures ≡ labels_of (innermost e) e ∷ [])
end_request-labels e = (
  refl,
  refl,
  ap (λ error. labels error ∷ []) (handle_error-innermost e)
      ∙ ap (λ l. l ∷ []) (labels-or_parent e),
)
