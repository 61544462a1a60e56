-- ===== src/Thread.antt =====
-- src/Thread.
pub mod LoadCounter
pub mod TaskQueue
pub mod Executors
pub mod ThreadGroup
pub mod ThreadPool
