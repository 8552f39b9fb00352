-- ===== src/Common/User.antt =====
-- A user of the talker, src/Common/User.h and User.cpp, by what its methods are about.
pub mod Print
pub mod Login
pub mod Telopt
pub mod Input
mod Tests
