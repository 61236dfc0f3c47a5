-- ===== src/Store.antt =====
-- internal/store and internal/domain: the tables, the transactions over them, and the queries.
pub mod Rows
pub mod Pending
pub mod Queue
pub mod Webhooks
pub mod Emails
pub mod Verifications
pub mod Exec
pub mod Sessions
pub mod Users
pub mod Challenges
pub mod Keeps
pub mod Outbox
pub mod Organizations
