-- ===== src/Utils.antt =====
-- patroni/utils.py: patching of configurations, repetition of calls that fail, and polling.
pub mod Patch
pub mod PatchLaws
pub mod Retry
pub mod RetryLaws
pub mod Polling
