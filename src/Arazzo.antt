-- ===== src/Arazzo.antt =====
-- The Arazzo subsystem (arazzo/).
pub mod Expression
pub mod Value
pub mod Evaluator
pub mod Criterion
pub mod Engine
pub mod Run
pub mod Validation
