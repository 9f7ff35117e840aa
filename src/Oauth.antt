-- ===== src/Oauth.antt =====
-- The tokens of the OAuth server: src/localmail/mcp/oauth/refresh.py and codes.py, with the SQL
-- predicate of src/localmail/api/revocation_sql.py that both put into their statements.
pub mod Store
pub mod Refresh
pub mod Codes
mod Examples
