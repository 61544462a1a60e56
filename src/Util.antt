-- ===== src/Util.antt =====
-- src/Util.
pub mod Text
pub mod NoticeCenter
pub mod Options
pub mod Any
pub mod Commands
pub mod Ini
pub mod Logger
pub mod Clock
pub mod Files
pub mod ResourcePool
