-- ===== src/Templates.antt =====
-- internal/runner/config/template_expansion.go and template_inheritance.go: command templates.
pub mod Errors
pub mod Placeholders
pub mod Args
pub mod Env
pub mod Spec
pub mod Validation
pub mod Vars
pub mod Inheritance
pub mod Usage
pub mod Command
