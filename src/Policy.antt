-- ===== src/Policy.antt =====
-- The update of a network policy and its enforcement (thunder_sandbox/asynchronous/sandbox.py).
pub mod Decode
pub mod Update
