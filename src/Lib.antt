-- ===== src/Lib.antt =====
-- A verification library for the Go service template go-mongo-boilerplate: an HTTP server and a
-- background worker over MongoDB, with Kafka and SQS consumers.
--
-- The parts, and the files that model them:
--
-- * internal/platform/sqs, the SQS consumer with its retry and dead-letter queues: Sqs.
--   routing.go and errors.go: Sqs/Routing. backoff.go: Sqs/Backoff. headers.go: Sqs/Headers, and
--   Stdlib/Traceparent for the regular expression and SanitizeError, which the Kafka package declares
--   in the same words. producer.go: Sqs/Producer. client.go (QueueName, VerifyQueue) and destQueueURL:
--   Sqs/Queues. defaultsForConsumer and the settings it fills: Sqs/Settings. consumer.go:
--   Sqs/Consumer. consumer_retry.go: Sqs/Retry.
-- * internal/platform/kafka, the Kafka consumer with its retry and dead-letter topics: Kafka. route.go:
--   Kafka/Routing. headers.go: Kafka/Headers. producer.go: Kafka/Producer. Consume and republish of
--   consumer.go: Kafka/Consumer. ConsumeRetry: Kafka/Retry. The world of calls is Kafka/World.
-- * internal/platform/health, the registry of health checks, its passes and its readiness endpoint:
--   Health. The heartbeat checkers, which the consumers call after each poll, are in Health/Heartbeat.
-- * internal/middleware/rate_limit.go, the per-client limiters and the handler: RateLimit. What a
--   limiter answers is a parameter.
-- * internal/middleware/cors.go, and Validate of internal/platform/config/config.go: Cors.
-- * cmd/init, the program that turns the template into a project: Init. stripper.go: Init/Strip, over the
--   lines of one file, with the text that is written. manifest.go, and the selection and the summary of prompt.go and main.go:
--   Init/Manifest. rename.go (validateModulePath): Init/Rename. The removal of markers left over, and what
--   is read from go.mod and .mockery.yaml: Init/Residual. Files are read and written by the caller. The
--   steps of main, with the renaming, the commands of actions.go and the self-destruction: Init/Pipeline.
-- * internal/platform/resilience, the circuit breakers and the settings of a retry: Resilience.
-- * internal/platform/observability, and its configuration: Observability.
-- * internal/user and internal/role, with their repositories, services and handlers, over a collection of
--   the MongoDB driver, whose calls and what the server documents of them are in Mongo: User and Role.
--   The handlers' responses are those of internal/platform/httperror: HttpError.
-- * internal/platform/pagination, the cursors of lists: Pagination. An object id is a number, as its bytes spell it. The JSON of
--   a cursor and the spelling of ids are the driver's, a parameter; base64 is Stdlib/Base64.
-- * internal/platform/httpclient, the client that keeps requests away from internal addresses: HttpClient.
--   The resolver and the dialer are a parameter, an address is its bytes.
-- * internal/platform/database/mongo_otel.go, the spans of MongoDB commands: Monitor. Monitor/Accounts has
--   the steps of commands and of the janitor in any order.
-- * cmd/server and internal/platform/httpserver: Server. The chain of middleware that
--   cmd/server/providers.go builds, from internal/middleware, is Server/Router; it uses RateLimit and Cors.
-- * cmd/worker, with the Kafka clients of internal/platform/kafka/client.go: Worker. It uses the registry and
--   the heartbeats of Health and the topics of Kafka/Consumer.
-- * cmd/server/wire_gen.go, cmd/worker/wire_gen.go and internal/platform/database/mongo.go, what the
--   processes open and close: Startup, with a ledger of what is open in Startup/Ledger. It uses the
--   clients of Worker and the providers of Observability.
-- * The Go standard library as far as the code uses it: Stdlib. Text is a string as a list of its code
--   points (Stdlib/Text); strconv in decimal (Stdlib/Decimal); error chains with errors.Is
--   (Stdlib/Errors); a result or an error (Stdlib/Outcome); the value of strconv.Atoi beside an error
--   (Stdlib/Clamped); maps as association lists with distinct keys (Stdlib/Maps); searching and lines
--   (Stdlib/Search).
-- * Tests of numbers and lists, and Go's wrap-around 64-bit int: Base.
--
-- State. The two consumers keep no state of their own but the calls that they make. Sqs/World and
-- Kafka/World have a World of two fields: the moment, which every call of the outside moves on by one, and the log of the
-- calls with their results. What the outside answers at a moment (ctx.Err(), ReceiveMessage,
-- SendMessage, DeleteMessage, PollFetches, ProduceSync, CommitRecords, the UUID generator, the trace propagator) is a field of the record Env,
-- so that a theorem for every Env holds for every order of failures and cancellations. Handlers and
-- producers are functions on a World. Each poll visits the attributes of a message in the order of the
-- list that stands for the map.
--
-- The registry of Health, the limiter store and the scan of the stripper are records that each operation
-- takes and returns.
--
-- Fuel. The loop of Consume runs for a number of rounds (Sqs.Consumer.rounds, Kafka.Consumer.rounds). One round for every
-- moment until the context is cancelled, and one more, are enough: each round moves the moment on, and
-- a round that starts after the cancellation is the last.
--
-- A client that follows the cursors of User is given one page more than there are users, which is enough,
-- since each page but the last has a user. base64 and every other recursion are on their argument.
--
-- Not modelled: logging and spans (only their flag in PublishConfig is kept), the construction of
-- clients from the SDKs, the migration command, generated mocks, and what the outside
-- does with a message once it has accepted it.
pub mod Base
pub mod Stdlib
pub mod Cors
pub mod Health
pub mod HttpClient
pub mod HttpError
pub mod Init
pub mod Kafka
pub mod Mongo
pub mod Monitor
pub mod Observability
pub mod Pagination
pub mod RateLimit
pub mod Resilience
pub mod Role
pub mod Server
pub mod Sqs
pub mod Startup
pub mod User
pub mod Worker
