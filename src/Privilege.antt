-- ===== src/Privilege.antt =====
-- internal/runner/base/privilege: running a callback as root, and giving the privilege back.
pub mod Metrics
pub mod Manager
