-- ===== src/Stream.antt =====
-- internal/stream: the messages, requests and responses of a stream between two nodes.
pub mod MessageId
pub mod Types
pub mod Metadata
pub mod Deliver
pub mod Router
pub mod Channel
pub mod Server
