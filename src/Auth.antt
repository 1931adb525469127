-- ===== src/Auth.antt =====
-- internal/auth: verification of OIDC bearer tokens.
pub mod Identity
pub mod Claims
pub mod Spoken
pub mod Dated
pub mod Admitted
pub mod Authenticate
pub mod Registry
pub mod Discovery
pub mod Throttle
pub mod Progress
pub mod Tests
