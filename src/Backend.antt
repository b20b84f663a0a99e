-- ===== src/Backend.antt =====
-- MedusaBackend: the WebSocket server that the agents send their events to.
pub mod Strings
pub mod Json
pub mod Printed
pub mod Main
pub mod Stored
pub mod Server
