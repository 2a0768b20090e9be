-- ===== src/Groups.antt =====
-- internal/groupmembership: may a user safely read or write a file.
pub mod Database
pub mod Policy
pub mod Members
pub mod SudoUid
pub mod Access
