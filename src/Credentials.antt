-- ===== src/Credentials.antt =====
-- thunder_sandbox/asynchronous/credentials.py: the key and the certificate of a workspace, in memory
-- and in the cache on disk.
pub mod Cache
pub mod Store
