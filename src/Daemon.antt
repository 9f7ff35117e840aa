-- ===== src/Daemon.antt =====
-- The daemon: src/localmail/retry.py, src/localmail/shutdown_budget.py and
-- src/localmail/daemon_reconcile.py.
pub mod Retry
pub mod Shutdown
pub mod Reconcile
mod Examples
