-- ===== src/Calls.antt =====
-- The calls that a client makes, and what it does with the responses.
pub mod Responses
pub mod Client
pub mod Single
pub mod Invoke
pub mod Futures
pub mod Correctable
