-- ===== src/Memory.antt =====
-- Physical and virtual memory: kernel/src/kernel/memory.
pub mod Layout
pub mod Mmu
pub mod Heap
pub mod Tables
