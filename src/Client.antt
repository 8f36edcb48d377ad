-- ===== src/Client.antt =====
-- thunder_sandbox/asynchronous/client.py: the replies of the API.
pub mod Response
pub mod ImageWait
pub mod Upload
pub mod Workspaces
pub mod Resolve
