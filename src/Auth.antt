-- ===== src/Auth.antt =====
-- Sessions and logins: refresh tokens the lockout of failed logins, and logins by password.
pub mod Refresh
pub mod Lockout
pub mod LocalLogin
mod Examples
