-- ===== src/Session.antt =====
-- internal/session: sessions, refresh tokens, and who may have an access token.
pub mod Roles
pub mod Token
pub mod Services
pub mod Refresh
pub mod Create
pub mod Switch
pub mod Recent
pub mod Pages
pub mod Revocation
pub mod Calls
pub mod Fixtures
mod Examples
