-- ===== src/Tests.antt =====
-- Runs of the models, and their theorems at concrete inputs.
pub mod Wire
pub mod Texts
pub mod Pipes
pub mod Ports
pub mod Scans
pub mod Retries
pub mod Sessions
pub mod Servers
pub mod Processes
pub mod Routes
pub mod Starts
pub mod Prints
pub mod Drivers
pub mod Hooks
