-- ===== src/Threads.antt =====
-- threads/: lists, the scheduler and the synchronization primitives.
pub mod KeyedList
pub mod Scheduler
pub mod Synch
pub mod Monitor
pub mod Thread
