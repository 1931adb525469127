-- ===== src/Perm.antt =====
-- internal/perm: the permission lattice and the least-privilege operations on permission maps.
pub mod Catalog
pub mod Levels
pub mod Scope
pub mod Rank
pub mod Intersect
pub mod Covers
pub mod Canonical
pub mod Table
pub mod Tests
