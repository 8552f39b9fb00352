-- ===== src/Strings.antt =====
-- The text helpers, src/Strings.
pub mod Misc
pub mod Splitline
