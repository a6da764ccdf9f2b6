-- ===== src/Scanning.antt =====
-- internal/scanning.
pub mod Scanner
pub mod Redaction
