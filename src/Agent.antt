-- ===== src/Agent.antt =====
-- MedusaUserlandAgent: the agent that takes events from the driver, the injected DLL and its own
-- module scan, and sends them to the backend.
pub mod Buffers
pub mod Strings
pub mod Json
pub mod Pipe
pub mod Receiver
pub mod Scanner
pub mod Client
pub mod Windows
pub mod Main
