-- ===== src/Queue.antt =====
-- include/queue.h: the mutex-protected global queue and the Chase-Lev work-stealing queue.
pub mod Global
pub mod Array
pub mod Steal
pub mod Refinement
pub mod Draining
pub mod Reclaimed
pub mod Concurrent
mod Tests
