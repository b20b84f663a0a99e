-- ===== src/Agent/Client.antt =====
-- MedusaUserlandAgent/WebSocketWorker.go: the WebSocket client that sends the events to the
-- backend.
pub mod Backoff
pub mod Frame
pub mod Session
pub mod Reader
pub mod Pings
