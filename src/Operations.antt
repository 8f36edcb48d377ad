-- ===== src/Operations.antt =====
-- What a sandbox does with its durable jobs over SSH (thunder_sandbox/asynchronous/sandbox.py).
pub mod Command
pub mod Jobs
pub mod Exec
