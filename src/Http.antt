-- ===== src/Http.antt =====
-- internal/httpapi: the handlers over the engine's requests.
pub mod Types
pub mod Systems
pub mod Answered
pub mod Handlers
pub mod Llm
pub mod Chat
pub mod Server
pub mod Slots
