-- ===== src/Klib.antt =====
-- The kernel's library: kernel/src/lib.
pub mod Slist
pub mod Text
pub mod Format
pub mod Clist
pub mod Scan
