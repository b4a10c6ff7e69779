-- ===== src/Forward.antt =====
-- embeddings-forward: the forwarding of one client request to the configured providers.
pub mod Config
pub mod Normalize
pub mod Keys
pub mod Calls
pub mod Decisions
pub mod Objects
pub mod Bodies
pub mod Merged
pub mod Handler
pub mod Responses
