-- ===== src/Dev.antt =====
-- Devices: the text terminal and the drivers of kernel/src/kernel/dev.
pub mod Vga
pub mod Tty
pub mod Keyboard
pub mod Pci
pub mod Serial
