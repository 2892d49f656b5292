-- ===== src/Mask.antt =====
-- internal/mask: detected spans become masked text, and masked text becomes the original again.
pub mod Doc
pub mod Apply
pub mod Restore
pub mod RoundTrip
pub mod Token
pub mod Full
pub mod Partial
pub mod Synthetic
