-- ===== src/Sync.antt =====
-- The IMAP sync of one mailbox: src/localmail/sync.py, with the resume arithmetic of
-- src/localmail/uids.py and the hold bookkeeping of src/localmail/fetch_retry.py. The children use
-- one another, and share the tables of `Store`.
pub mod Uids
pub mod Store
pub mod Holds
pub mod Order
pub mod Messages
pub mod Env
pub mod Pass
pub mod Retry
mod Examples
