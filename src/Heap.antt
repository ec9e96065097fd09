-- ===== src/Heap.antt =====
-- kernel/mm/heap.c: the kernel's heap.
pub mod State
pub mod Slab
pub mod Large
pub mod Api
pub mod Capacity
pub mod Classes
pub mod Objects
pub mod Take
pub mod Fit
mod Tests
