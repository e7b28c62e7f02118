-- ===== src/Server.antt =====
-- services/core-api/src/main.rs: the HTTP server in front of the operations of
-- services/core-api/src/lib.rs. Its router, metrics and shutdown are not modelled.
pub mod Reader
pub mod Requests
pub mod Uploads
pub mod Syncs
pub mod Handlers
pub mod Responses
pub mod Guards
pub mod Answers
mod Tests
