-- ===== src/Shell.antt =====
-- The command lines that the client sends to a sandbox's shell
-- (thunder_sandbox/asynchronous/sandbox.py), and how a POSIX shell reads them.
pub mod Quote
pub mod Reader
pub mod Command
pub mod Reading
pub mod Line
pub mod EnvOrder
