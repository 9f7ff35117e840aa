-- ===== src/Auth.antt =====
-- Logins, session tokens and the login rate limiter: src/localmail/api/auth.py and the routes of
-- src/localmail/serve/routes/auth.py that commit or roll back around it.
pub mod Store
pub mod Limits
pub mod Tokens
pub mod Login
pub mod Keys
mod Examples
