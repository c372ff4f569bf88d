-- ===== src/Persistence.antt =====
-- agent/persistence: the outbox of documents for the search index.
pub mod Outbox
pub mod Leases
pub mod Exclusive
mod Tests
