-- ===== src/Arch.antt =====
-- The code of kernel/Source/arch.
pub mod Idt
pub mod Gdt
pub mod Efi
pub mod Serial
pub mod Io
