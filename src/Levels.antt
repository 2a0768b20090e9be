-- ===== src/Levels.antt =====
-- internal/runner/config/expansion.go: the global level, a group and a command, each expanded over
-- the level above.
pub mod Specs
pub mod Timeouts
pub mod SystemEnv
pub mod CmdAllowed
pub mod Expansion
