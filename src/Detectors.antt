-- ===== src/Detectors.antt =====
-- internal/pii/detectors: the validators of what a rule has matched, and the detector of card holders.
pub mod Digits
pub mod Luhn
pub mod Control
pub mod Dates
pub mod Runes
pub mod Tokens
pub mod Cardholder
pub mod Emails
pub mod Written
