-- ===== src/Driver.antt =====
-- The kernel driver, MedusaKernelDriver: the events that it sends to the agent, the rights that it
-- leaves to a handle of the protected process, and the PIDs that the agent's connection sets.
pub mod Strings
pub mod Notify
pub mod Entry
pub mod Callback
pub mod Events
pub mod Rights
