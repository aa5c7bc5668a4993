-- ===== src/Outbox.antt =====
-- pkg/kafka/outbox: messages are stored in the transaction that causes them, and sent to Kafka from
-- there. The children follow the files: `Repository` (repository.go, model.go, config.go), `Create`
-- (outbox.go, and the header helpers that it calls), `Confirmer` (confirmer.go), `Pipeline`
-- (fetcher.go and sender.go, with the channels between the workers).
pub mod Repository
pub mod Confirmer
pub mod Create
pub mod Pipeline
mod Tests
