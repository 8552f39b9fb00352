-- ===== src/Log.antt =====
-- Logging, src/Log: of it the levels alone.
pub mod Severity
