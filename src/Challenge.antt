-- ===== src/Challenge.antt =====
-- internal/challenge: codes sent by e-mail, and the actions that wait until one is given.
pub mod Rows
pub mod Services
pub mod Codes
pub mod Create
pub mod Resend
pub mod Verify
pub mod Steps
pub mod Right
pub mod Closures
pub mod Verified
pub mod Used
pub mod Guesses
pub mod Reports
pub mod History
pub mod Once
pub mod Sent
pub mod Spacing
pub mod Executed
pub mod Replaced
pub mod PasswordReset
pub mod EmailChange
pub mod EmailVerification
pub mod Worker
pub mod Addressed
pub mod Verifications
pub mod Delays
pub mod Delivered
pub mod Fixtures
mod Examples
mod WorkerExamples
mod VerificationExamples
