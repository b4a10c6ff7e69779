-- ===== src/CommandCode.antt =====
-- commandcode: the plugin that turns Command Code's event stream into OpenAI chat completions.
pub mod Json
pub mod Usage
pub mod Errors
pub mod Catalog
pub mod Models
pub mod Request
pub mod Providers
pub mod Auth
pub mod Stream
pub mod Lifecycle
pub mod Continuation
pub mod Lines
