-- ===== src/Router.antt =====
-- services/router-service
pub mod Channels
pub mod Inference
pub mod CallLog
pub mod Streams
pub mod Anthropic
pub mod Responses
pub mod Calls
pub mod Routing
pub mod Upstream
mod Tests
