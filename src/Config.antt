-- ===== src/Config.antt =====
-- internal/config: the configuration, its checks, and what the configured policies grant together.
pub mod Types
pub mod Claims
pub mod Urls
pub mod Defaults
pub mod Issuers
pub mod Validate
pub mod Distinct
pub mod Valid
pub mod Sound
pub mod Load
pub mod Lints
pub mod Grants
pub mod Tests
