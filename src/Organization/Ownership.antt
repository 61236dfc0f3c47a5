-- ===== src/Organization/Ownership.antt =====
-- internal/organization: every organization that has members keeps exactly one owner.
pub mod Statements
pub mod Removal
pub mod Roles
pub mod Transfer
pub mod Histories
