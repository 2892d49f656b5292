-- ===== src/Pii.antt =====
-- internal/pii: spans of personal data, and the passes that turn what the detectors report into the
-- spans that are masked.
pub mod Types
pub mod Resolve
pub mod Utf8
pub mod Detector
pub mod Context
pub mod Keywords
pub mod Pipeline
