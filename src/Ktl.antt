-- ===== src/Ktl.antt =====
-- The synchronisation parts of kernel/Source/ktl. Threads are numbers, and a run is a sequence of
-- steps of single threads, one step for each atomic access.
pub mod Threads
pub mod SpinLock
pub mod CallOnce
pub mod StringView
pub mod Atomic
pub mod Slice
pub mod Pair
