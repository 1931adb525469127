-- ===== src/Server.antt =====
-- internal/server: the OAuth token-exchange endpoint.
pub mod Fields
pub mod Scope
pub mod Wire
pub mod Handler
pub mod RoundTrip
pub mod Equal
pub mod Exchange
pub mod Issued
pub mod Run
pub mod Safety
pub mod Tests
