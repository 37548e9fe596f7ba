-- ===== src/Http1.antt =====
-- src/http/v1/Http1Parser.h: reading an HTTP/1.1 request from a buffer, and what it calls of
-- src/http/Protocol.h.
pub mod Result
pub mod Text
pub mod Line
pub mod Fields
pub mod Headers
pub mod Chunks
pub mod Parse
mod Tests
pub mod Number
pub mod Bounds
pub mod Switch
pub mod Clean
pub mod Invariant
pub mod Targets
pub mod Steps
pub mod Safe
pub mod Chunk
pub mod Trailer
pub mod TextFuel
pub mod Fuel
