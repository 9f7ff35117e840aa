-- ===== src/Query.antt =====
-- The search query: src/localmail/search/query.py, and how the command line composes one,
-- src/localmail/cli_search_query.py.
pub mod Text
pub mod Tokens
pub mod Fields
pub mod Parse
pub mod Compose
mod Examples
