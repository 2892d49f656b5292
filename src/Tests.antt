-- ===== src/Tests.antt =====
-- The theorems at concrete inputs, and test data.
pub mod Data
mod Masking
mod Spans
mod Storing
mod Requests
mod Access
mod Plain
mod Fakes
mod Serving
mod Chatting
mod Holders
mod Validating
mod Refining
