-- ===== src/Correlation.antt =====
-- agent/correlation: incidents of different jobs become one.
pub mod Evidence
pub mod Bundling
pub mod Slots
pub mod Starving
pub mod Bundled
mod Tests
