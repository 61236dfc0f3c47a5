-- ===== src/Organization.antt =====
-- internal/organization: members, owners, and the end of organizations.
pub mod Services
pub mod Lifecycle
pub mod Deletion
pub mod Members
pub mod Ownership
mod Examples
