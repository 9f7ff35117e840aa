-- ===== src/Search.antt =====
-- Small parts of the search workers: src/localmail/search/failure_pacing.py,
-- sweep_pacing.py, page_cache.py and chunking.py.
pub mod Failures
pub mod Sweep
pub mod Chunks
pub mod PageCache
pub mod Extract
mod Examples
mod ExtractExamples
