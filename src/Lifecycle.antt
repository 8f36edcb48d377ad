-- ===== src/Lifecycle.antt =====
-- thunder_sandbox/asynchronous/sandbox.py: how a sandbox starts and stops.
pub mod Box
pub mod Poll
pub mod Streak
pub mod Startup
pub mod Terminate
pub mod Waiting
