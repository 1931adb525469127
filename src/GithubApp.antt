-- ===== src/GithubApp.antt =====
-- internal/githubapp: resolving installations and minting scoped installation tokens.
pub mod Client
pub mod Lookups
pub mod Manifest
pub mod Identity
pub mod Mint
pub mod Tests
