-- ===== src/Webhook.antt =====
-- internal/webhook: events that are queued in the database, and delivered over HTTP.
pub mod Sender
pub mod Publisher
pub mod Worker
pub mod Upkeep
pub mod Steps
pub mod Attempts
pub mod Claims
pub mod Histories
pub mod Delivered
pub mod Late
pub mod Answers
pub mod Runs
mod Examples
