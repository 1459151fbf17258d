-- ===== src/Tables/Tests.antt =====
-- kernel/arch/i386/gdt.c and idt.c at concrete addresses.
use Prim.Native.Nat.{ℕ}
use emyx.Base.{◌+◌, ◌*◌, ◌/◌, ◌≡◌, arith}
use emyx.Tables.Gdt.{
  GdtDescriptor, Tss, Fits, base_of, limit_of, span_of, tss_init, gdt_init, new_descriptor_lem,
}
use emyx.Tables.Gdt
use emyx.Tables.Idt.{IdtDescriptor, Stubs, offset_of, idt_init, idt_init_lem}

new_descriptor_lem_example :
    Fits (Gdt.new_descriptor 0xC0123456 103 0x89 0)
    × (base_of (Gdt.new_descriptor 0xC0123456 103 0x89 0) ≡ 0xC0123456)
    × (limit_of (Gdt.new_descriptor 0xC0123456 103 0x89 0) ≡ 103)
    × ((Gdt.new_descriptor 0xC0123456 103 0x89 0).granularity / 16 ≡ 0 / 16)
new_descriptor_lem_example =
    new_descriptor_lem 0xC0123456 103 0x89 0 (omega arith) (omega arith) (omega arith)

abbrev stubs : Stubs
stubs = record {
  exception_table = λ i. 0xC0100000 + 16 * i;
  irq_table = λ i. 0xC0101000 + 16 * i;
  isr_stub = 0xC0102000;
  syscall_stub = 0xC0103000;
}

abbrev empty : ℕ → IdtDescriptor
empty i = record { offset_low = 0; selector = 0; zero_byte = 0; flags = 0; offset_high = 0 }

-- The vector of the keyboard.
idt_init_lem_example :
    (offset_of ((idt_init stubs empty 0xC0200000).0 33) ≡ 0xC0101010)
    × (((idt_init stubs empty 0xC0200000).0 33).selector ≡ 8)
    × (((idt_init stubs empty 0xC0200000).0 33).flags ≡ 0x8E)
idt_init_lem_example = idt_init_lem stubs empty 0xC0200000 33 (omega arith) (omega arith)
