-- ===== src/Security/Blowfish.antt =====
-- The bcrypt password hash of src/Security/Blowfish.cpp.
-- Encoding is its base 64, BF_encode and BF_decode.
pub mod Encoding
pub mod Cipher
pub mod Crypt
mod Tests
