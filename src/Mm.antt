-- ===== src/Mm.antt =====
-- kernel/mm: physical frames, page tables and the kernel heap.
pub mod Pmm
pub mod Machine
pub mod Vmm
mod Tests
