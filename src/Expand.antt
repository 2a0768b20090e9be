-- ===== src/Expand.antt =====
-- internal/runner/config/expansion.go: the expansion of %{VAR} references.
pub mod Pieces
pub mod Refs
pub mod Strings
pub mod Meaning
pub mod Lazy
