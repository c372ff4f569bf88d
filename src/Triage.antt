-- ===== src/Triage.antt =====
-- agent/triage: the route of an incident, the claims that a verdict may keep, and the breaker in front
-- of the model provider; and the life cycle of a stored incident.
pub mod Routing
pub mod Routes
pub mod Claims
pub mod Breaker
pub mod Lifecycle
pub mod Retries
pub mod Attempts
pub mod Cache
mod Tests
mod CallTests
