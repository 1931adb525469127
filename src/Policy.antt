-- ===== src/Policy.antt =====
-- internal/policy: evaluation of requests against the configured policies.
pub mod Ast
pub mod Reads
pub mod Condition
pub mod Engine
pub mod Build
pub mod Built
pub mod Merge
pub mod Spec
pub mod Policies
pub mod Resources
pub mod Evaluate
pub mod Promise
pub mod Tests
