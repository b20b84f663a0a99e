-- ===== src/Agent/Windows.antt =====
-- The agent's calls of Windows that take a handle, use it and give it back.
pub mod Handles
pub mod Injector
pub mod Etw
pub mod Privilege
