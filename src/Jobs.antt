-- ===== src/Jobs.antt =====
-- thunder_sandbox/asynchronous/_jobs.py: the on-sandbox protocol of durable jobs.
pub mod State
pub mod Status
pub mod Paths
pub mod Spec
