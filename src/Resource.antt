-- ===== src/Resource.antt =====
-- internal/resource: parsing and validation of resource identifiers.
pub mod Pattern
pub mod Parse
pub mod Valid
pub mod Prefixed
pub mod Target
pub mod Select
pub mod Tests
