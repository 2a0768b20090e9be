-- ===== src/Config.antt =====
-- internal/runner/config: the checked processing of `env_import`, `vars` and `env_vars`.
pub mod Errors
pub mod Mappings
pub mod Imports
pub mod Env
pub mod Vars
