-- ===== src/Platform.antt =====
-- The POSIX layer under platform/posix: the clock, the waits with a deadline, the blocking queue
-- and the event.
pub mod Clock
pub mod Queue
pub mod Event
pub mod Memory
mod Tests
