-- ===== src/Transfer.antt =====
-- thunder_sandbox/asynchronous/_transfer.py: how a complete download is put in its place.
pub mod Publish
pub mod Path
