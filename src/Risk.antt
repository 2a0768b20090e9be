-- ===== src/Risk.antt =====
-- internal/runner/base/risk: the risk of a command.
pub mod Assessment
pub mod Evaluator
