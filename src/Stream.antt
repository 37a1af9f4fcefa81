-- ===== src/Stream.antt =====
-- pkg/service/stream: the consumer stream over WebSocket and gRPC. Its parts: the connection caps
-- (Limiter), the tokens of a connection (Auth), and one connection's life (Session).
pub mod Limiter
pub mod Caps
pub mod Auth
pub mod Session
pub mod Frames
mod Tests
