-- ===== src/Tables.antt =====
-- kernel/arch/i386/gdt.c and idt.c: the tables by which the processor finds segments and handlers.
pub mod Gdt
pub mod Idt
mod Tests
