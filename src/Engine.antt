-- ===== src/Engine.antt =====
-- internal/engine: detection over windows, the rules that choose what is masked, and the requests.
pub mod Filter
pub mod Windows
pub mod Types
pub mod Masking
pub mod Requests
pub mod Batch
pub mod Process
pub mod Refinement
