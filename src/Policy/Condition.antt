-- ===== src/Policy/Condition.antt =====
-- internal/policy/engine.go: the checks that a policy condition has to pass, and what they promise.
pub mod Anchored
pub mod Check
pub mod Semantics
pub mod Constrains
pub mod Operands
pub mod Owner
pub mod Values
pub mod Pinned
pub mod Places
pub mod Spelled
pub mod Literals
pub mod Evaluator
pub mod Tests
