-- ===== src/Store.antt =====
-- internal/store: masking records kept by id, encrypted, until they expire.
pub mod Types
pub mod Api
pub mod Spec
pub mod Memory
