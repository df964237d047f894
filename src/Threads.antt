-- ===== src/Threads.antt =====
-- The thread library of threads/.
pub mod Memory
pub mod Queue
pub mod Kernel
pub mod Create
pub mod Wait
pub mod Exit
pub mod Yield
pub mod Locks
mod Small
mod Examples
mod LockExamples
