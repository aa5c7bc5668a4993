-- ===== src/Lib.antt =====
-- Verification of ecommerce-commons, a Go library that the services of a shop share: messages over
-- Kafka by way of an outbox, their consumption with retries and dead letters, readiness of a service,
-- a retrying HTTP transport, access control for calls, tenants with a database each, a repository with
-- optimistic locking, background workers, and validated configuration.
--
-- How the parts interact. `Outbox.Create` stores a message as a MongoDB document in the transaction of
-- the business change, and returns a function that offers it for delivery. A fetcher locks documents
-- that are due and a sender produces them; the producer's reports go to the confirmer, which marks
-- documents as sent, in batches. At the other end a record is deserialized, its handler is run with
-- retries and panic recovery, and the result decides on the dead letter and the commit. Components
-- report to a `Readiness`, which the health endpoints show to Kubernetes. Every part takes its
-- settings from the configuration loader. A call passes three interceptors (tenant, token, match of
-- the two) on its way to a service. The tenants of a service stand in a registry that a run of
-- `TenantMigrationRunner` brings in step with the tenant service before it migrates each tenant's
-- database; a clean-up worker drops the database of a tenant whose deadline has passed, and then its
-- record. Entities are kept by the generic repository, which counts their versions. A worker waits for
-- the `Readiness` before it calls its run function.
--
-- The files, and what they model:
--   Prelude        tests, `Option` as a monad, lists over the native numbers, integers, maps as
--                  association lists, the order of texts, durations
--   GoError        error values: errors.Is, errors.As, %w
--   Decimal        %d
--   Health         pkg/core/health/readiness.go, interfaces.go: `Readiness` and its methods
--     Invariant    the invariant of that state     Latch    what runs keep
--     Panics       whether runs panic              Exact    when it reports ready
--     Traffic      concurrent MarkTrafficReady, step by step (with Safe)
--     Status       GetStatus                       Probe    pkg/http/health/handler.go
--   Retry          pkg/http/client/retry.go: RoundTrip, doRequest, isRetryableError
--     Bounds       how many requests it sends      Answers  what it returns
--   Consumer       pkg/kafka/consumer
--     Router       router.go, handler.go           Processor    processor.go (with Laws, Calls)
--     Dlq          dlq_handler.go, tracing.go      Results      result_handler.go, processMessage
--     Deserializer deserializer.go, pkg/kafka/kafkaproto/deserializer.go
--     Reader       reader.go (with Forwarded)
--   Outbox         pkg/kafka/outbox
--     Repository   repository.go, model.go, config.go (with Lease, Fetched, Exclusive,
--                  Backoff, Updates, Sent)
--     Create       outbox.go, trace_propagator.go, send of sender.go,
--                  pkg/kafka/kafkaproto/header_populator.go,
--                  pkg/tenant/messaging.go, context.go
--     Confirmer    confirmer.go                    Pipeline     fetcher.go, sender.go, the channels
--   Loader         pkg/core/config/loader.go
--   ServerConfig   pkg/http/server/config.go
--   KafkaConfig    pkg/kafka/config
--   Security       pkg/security/validation (claims.go, validator.go, interceptor.go, context.go) and
--                  pkg/tenant/interceptor.go; the order is that of pkg/http/connect/interceptor
--     Access       which requests reach the service
--   Database       how a call of the database can end
--   Tenant         pkg/tenant
--     Registry     repository.go (with View)
--     Sync         sync.go (with Reconcile, Outcome, Converge)
--     Lifecycle    lifecycle.go, migrator.go, pkg/mongo/migration.go (with Migrated, Events)
--     Cleanup      cleanup_worker.go, cleaner.go (with Gone, Dropped, Total, Race)
--   Mongo          pkg/mongo
--     Collection   what the repository asks of the driver (with Keyed)
--     Repository   generic_repository.go, errors.go (with Writes, Inserts, Upserts, Versions,
--                  Locking, Newer, Stored, Pages)
--     Config       config.go (with Built, Uri)
--   Worker         pkg/core/worker/worker.go      Gate         when it calls its run function
--   SecurityConfig pkg/security/validation/config.go, pkg/security/token/config.go (with Complete)
--   HttpClient     pkg/http/client (client.go, auth.go, tenant.go)  Propagated  the tenant of a call
--   Interceptors   pkg/http/connect/interceptor  Guarded      what reaches the handler
-- The files named Tests run the definitions on concrete inputs.
--
-- How state and operations correspond. A struct is a record with the struct's fields, in snake case,
-- less its logger and its handles on other components; a method is a function of the same name that
-- takes and returns the state. A method that holds a mutex is one step. So is
-- `MarkTrafficReady` in the runs of whole calls; Health/Traffic.antt takes it apart. An error is an `Option` or a
-- sum; a panic is `none`. A channel that is only closed is a Boolean, a channel of messages a list, a
-- `select` the choice of a branch that is open. An effect on the world outside (a record produced, a
-- commit, a span's status) is an entry in a list of actions, in order.
--
-- Parameters, with what is asked of them: `backoff.Retry` (`Retrier`), the OpenTelemetry propagator
-- (`Propagator`), the protobuf registry with `%T` and `%q` of fmt (`Registry`), the serializer, the JWT parser, koanf
-- (`Source`), the package lo (`Lo`), the tenant service, golang-migrate (`TenantMigrationRunner`), the
-- cleaners, the entity mapper with the encoding to BSON (`EntityMapper`), the order of a query's answer, net/url, strconv and readpref
-- (`Packages`), the transport below `RoundTrip` (`Environment`), the clock and new UUIDs. MongoDB's
-- calls are operations on the list of documents, each atomic, as MongoDB documents its filters, sorts
-- and updates of one document; `$pow` is exact. Where a call can fail (`Fault`), it may also have been
-- made and its answer lost. A failed update of many documents may have reached some of them.
--
-- Bounds and fuel. Numbers are unbounded; the code's `int` and `time.Duration` values lie far from
-- their limits (a version counts the writes of one document), but for the offset of a page, which is taken modulo 2 ^ 64. `RoundTrip` has no bound
-- in the code: its model takes fuel, and the statements about it say how much is enough, and when no
-- amount is. The decimal digits of n are made with n + 1 units of fuel; each digit takes one.
--
-- Not modelled: logging, tracing beyond headers and status, dependency injection, the drivers of Kafka
-- and MongoDB and their transactions, JWT parsing, the ticker of the clean-up worker, the sort of the
-- interceptors by priority (its result is written out), observability set-up, the Swagger assets, and
-- test utilities.
pub mod Prelude
pub mod Health
pub mod GoError
pub mod Retry
pub mod Decimal
pub mod Consumer
pub mod Outbox
pub mod Loader
pub mod ServerConfig
pub mod KafkaConfig
pub mod Security
pub mod Tenant
pub mod Mongo
pub mod Worker
pub mod Interceptors
pub mod SecurityConfig
pub mod HttpClient
pub mod Database
