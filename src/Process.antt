-- ===== src/Process.antt =====
-- thunder_sandbox/asynchronous/process.py: handles of durable processes and their output streams.
pub mod Handle
pub mod Cleanup
pub mod Terminate
pub mod Monotone
pub mod Calls
pub mod Output
