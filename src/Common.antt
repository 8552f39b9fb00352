-- ===== src/Common.antt =====
-- The talker's core, src/Common.
pub mod Task
pub mod AutoId
pub mod Dispatcher
pub mod Scheduler
pub mod Enum
pub mod IoUser
pub mod User
