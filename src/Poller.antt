-- ===== src/Poller.antt =====
-- src/Poller.
pub mod Async
pub mod Events
pub mod Timers
pub mod Pool
pub mod Pipe
pub mod Lifetime
