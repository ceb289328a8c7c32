-- ===== src/Lib.antt =====
-- Verification library of the demo hybrid microservice, a NestJS server with HTTP, gRPC, Kafka, RabbitMQ
-- and WebSocket transports.
--
-- The program's parts that are modelled, with the files of src/modules that they translate:
--   * Graceful: the shutdown. Counter is the counter of active methods and the decorator that keeps it
--     (graceful-shutdown/services/graceful-shutdown.count-handle.ts and
--     decorators/graceful-shutdown.on-count.ts); Wait is waitForMethodsDone over that counter; Events is
--     the event handler (graceful-shutdown.event-handler.ts); Service is beforeApplicationShutdown
--     (graceful-shutdown.service.ts), which emits the first event, waits, emits the second event and
--     exits, each part under promisesTimeout (date-timestamp/utils/utils.ts).
--   * Kafka: the server (kafka/kafka-server/services/kafka-server.base.ts and kafka-server.service.ts).
--     Handlers is addHandler; Connection is listen, connectAndStart, reconnect, close and the CRASH
--     listener; Messages is handleEachMessage and handleBatchMessages.
--   * Rabbit: the server (rabbit-mq/rabbit-mq-server/services/rabbit-mq-server.ts). Options is
--     parseOptions; Setup is setupChannel; Messages is handleMessage, handleEvent and
--     handleErrorInProcessMessage; Lifecycle is start with its listeners, and close.
--     Client is the client's connection, and Client.Publishing what it asks of its channel
--     (rabbit-mq/rabbit-mq-client/services/rabbit-mq-client.proxy.ts).
--   * Logger: Value is the values of log records, and Prune the pruning of them
--     (elk-logger/formatters/records/prune.formatter.ts and formatters/prune.config.ts). Markers is
--     filterMarkers (elk-logger/helpers/log-fields.helper.ts), and Spans actualizeTraceSpan
--     (elk-logger/services/base.elk-logger.service.ts). OnMethod is the decorator ElkLoggerOnMethod with its
--     event service, and Nest is NestElkLoggerService (elk-logger/services/nest-elk-logger.service.ts).
--   * Kafka.Producer: the client (kafka/kafka-client). Producer is how requests become the records that
--     kafkajs sends; Connection is KafkaClientProxy's connect, send and close; Errors is handleError.
--   * Headers: headers and the search for one (common/helpers/base.headers.helper.ts), and in Builders
--     the builders and readers of HTTP and Kafka (http/http-common, kafka/kafka-common).
--   * Telemetry: in Sampling the tail-sampling exporter of spans, and in Propagation the propagator
--     (opentelemetry/exporters and opentelemetry/propagators).
--   * Prometheus: the decorator PrometheusOnMethod in OnMethod, the configuration of its events in Config,
--     and the service that handles them in Events (prometheus/decorators, prometheus/helpers and
--     prometheus/services/prometheus.event-service.ts).
--   * Auth: AuthService (auth/services/auth.service.ts), in Token the token of a request
--     (http/http-common/helpers/http.auth.helper.ts), and in Guards canActivate of the guards of HTTP,
--     gRPC and WebSocket.
--   * Context: AbstractAsyncContext (async-context/types/abstract.async-context.ts), and in Process the
--     trace of the process (elk-logger/services/process-trace-span.store.ts).
--   * Circular: circularRemove (common/utils/circular-normalizers.ts).
--   * Http: the client (http/http-client). Options is mergeRequestOptions, canRetry and the defaults;
--     Errors is handleError; Request is the pipe of request as callbacks.
--   * Grpc: the client (grpc/grpc-client). Options is mergeRequestOptions, canRetry and the defaults; Errors
--     is handleError with isGrpcServiceError; Request is the pipe of request as callbacks.
-- Common holds what they share, and Tests applies the theorems at concrete inputs.
--
-- State is a record, an operation a function on it, and an operation that waits is cut at its awaits:
-- the code between two of them is one function, and a list of events says which waiting call goes on,
-- and how what it awaited ended. Such a list is arbitrary, so that a theorem about `run` holds for every
-- interleaving. Metrics and calls of the broker are lists of effects; logging is left out but where it
-- is what the code reports. Numbers that only grow are native naturals, and the counter of active
-- methods, which the code may decrease below 0, is an integer. Recursion is structural, over events, handlers,
-- messages or values, but in circularRemove, which follows references: its fuel is the number of objects
-- of the heap and one more, and the theorem about it shows that this is enough.
--
-- Code of other packages is given by what it does: NestJS by its hook, its option getter and its
-- constants; rxjs, kafkajs and amqp-connection-manager by the moments at which they call the program or
-- end a promise; axios and grpc-js by their constants; prom-client by what a metric's call throws;
-- OpenTelemetry by how it reads a carrier and starts a span; the JWT library by what it makes of a token;
-- adapters, serializers, deserializers and subscribers by their results. Of the language, a timer's delay
-- is that of Node.js, and how strings are trimmed and put into lower case is a parameter.
--
-- Not modelled: the HTTP and gRPC servers but for their guards, the WebSocket client, the Redis cache, the
-- database, ConfigServiceHelper, the other formatters of the logger, the services of single metrics, and
-- the application's own controllers and bootstrap, which are glue of the libraries or formatting of text.
pub mod Common
pub mod Auth
pub mod Circular
pub mod Context
pub mod Graceful
pub mod Kafka
pub mod Prometheus
pub mod Rabbit
pub mod Logger
pub mod Grpc
pub mod Headers
pub mod Http
pub mod Telemetry
pub mod Tests
