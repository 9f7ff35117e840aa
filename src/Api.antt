-- ===== src/Api.antt =====
-- The rules of the HTTP API: src/localmail/api, with src/localmail/serve/routes/blob_response.py.
pub mod Ranges
pub mod Acl
pub mod Blobs
pub mod Filters
pub mod Scope
pub mod Cursors
mod Examples
mod SearchExamples
mod CursorExamples
