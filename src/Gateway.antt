-- ===== src/Gateway.antt =====
-- internal/handler/handler.go: who may use the gateway, with which upstream key a request is sent,
-- and how it is retried.
pub mod Auth
pub mod Chat
pub mod Tools
pub mod Stream
pub mod Rounds
pub mod Completions
pub mod Manage
pub mod Settings
pub mod Requests
mod Examples
mod StreamExamples
mod ManageExamples
