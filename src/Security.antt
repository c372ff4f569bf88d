-- ===== src/Security.antt =====
-- agent/security: what a role may do, the roles that a token's claims give, and rate limits.
pub mod Authorization
pub mod OidcRoles
pub mod Privileges
pub mod RateLimiting
pub mod RateLimits
pub mod Granted
mod Tests
