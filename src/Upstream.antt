-- ===== src/Upstream.antt =====
-- internal/upstream: the client that sends requests through a proxy.
pub mod Client
pub mod Cli
pub mod Messages
pub mod Server
mod Examples
