-- ===== src/Ssh.antt =====
-- thunder_sandbox/asynchronous/_ssh.py: one shared connection and its retry policy.
pub mod Manager
pub mod Retry
pub mod Open
