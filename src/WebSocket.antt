-- ===== src/WebSocket.antt =====
-- src/http/websocket: RFC 6455 frames.
pub mod Opcode
pub mod Frame
pub mod RoundTrip
pub mod Stream
pub mod Sound
pub mod Mask
pub mod Session
mod Tests
