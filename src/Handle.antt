-- ===== src/Handle.antt =====
-- How the description of a sandbox becomes a handle, and how handles are found:
-- thunder_sandbox/asynchronous/sandbox.py and thunder_sandbox/asynchronous/client.py.
pub mod Info
pub mod Listing
pub mod Find
