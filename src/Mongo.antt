-- ===== src/Mongo.antt =====
-- pkg/mongo: the repository that the services keep their entities with, and the settings of the
-- connection. `Collection` is what the code asks of MongoDB, `Repository` is generic_repository.go.
pub mod Collection
pub mod Repository
pub mod Config
mod Tests
