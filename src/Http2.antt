-- ===== src/Http2.antt =====
-- src/http/v2: RFC 9113 frames.
pub mod Frame
pub mod RoundTrip
pub mod Connection
mod Tests
