-- ===== src/Examples.antt =====
-- The theorems at concrete inputs, and runs of the modelled code.
pub mod Jobs
pub mod Shell
pub mod Ssh
pub mod Process
pub mod Output
pub mod Lifecycle
pub mod Transfer
pub mod Client
pub mod Create
pub mod Handle
pub mod Image
pub mod Credentials
pub mod Operations
pub mod Policy
