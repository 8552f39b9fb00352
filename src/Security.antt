-- ===== src/Security.antt =====
-- The password hash, src/Security.
pub mod Blowfish
