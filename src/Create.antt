-- ===== src/Create.antt =====
-- `Sandbox.create` (thunder_sandbox/asynchronous/sandbox.py): the checks of its options, and the
-- network policy of its request.
pub mod Options
pub mod Accepted
pub mod Network
pub mod Allocate
pub mod Body
