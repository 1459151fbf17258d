-- ===== src/Tables/Idt.antt =====
-- kernel/arch/i386/idt.c and idt.h: interrupt descriptors, and the handler of every vector.
use Prim.Native.Nat.{ℕ, zero, suc}
use emyx.Base.{
  ◌+◌, ◌*◌, ◌-◌, ◌/◌, ◌^◌, ◌<◌, ◌≡◌, inl, inr, refl, ap, ◌∙◌, false, ltb, leb, ◌==◌, if◌then◌else◌,
  Bool-cases, bit_and, shr, arith, bit_and_mask, bit_and_high,
}
use native.Mathlib.Decide.{ℕ_discrete}
use emyx.Tables.Gdt.{gdt_kernel_code}

-- `idt_descriptor`.
pub record IdtDescriptor : Type 0 where
  pub offset_low : ℕ
  pub selector : ℕ
  pub zero_byte : ℕ
  pub flags : ℕ
  pub offset_high : ℕ

-- `idt_ptr`.
pub record IdtPtr : Type 0 where
  pub limit : ℕ
  pub base : ℕ

pub new_descriptor : ℕ → ℕ → ℕ → IdtDescriptor
new_descriptor offset selector flags = record {
  offset_low = bit_and offset 0x0000FFFF;
  selector = selector;
  zero_byte = 0;
  flags = flags;
  offset_high = shr (bit_and offset 0xFFFF0000) 16;
}

-- The addresses of the assembly's entries: `exception_table` and `irq_table` by their index.
pub record Stubs : Type 0 where
  pub exception_table : ℕ → ℕ
  pub irq_table : ℕ → ℕ
  pub isr_stub : ℕ
  pub syscall_stub : ℕ

-- `idt[i] = d`.
abbrev pub put_gate : (ℕ → IdtDescriptor) → ℕ → IdtDescriptor → ℕ → IdtDescriptor
put_gate idt i d j = if j == i then d else idt j

-- The loops: `n` gates from `i` on, at `offset` in the table, whose handlers are in `table`.
pub register : ℕ → ℕ → ℕ → (ℕ → ℕ) → (ℕ → IdtDescriptor) → ℕ → IdtDescriptor
register zero i offset table idt = idt
register (suc n) i offset table idt =
    register n (i + 1) offset table
      (put_gate idt (i + offset) (new_descriptor (table i) gdt_kernel_code 0x8E))

-- The table, and the pointer that is loaded, for the address of the table.
pub idt_init : Stubs → (ℕ → IdtDescriptor) → ℕ → (ℕ → IdtDescriptor) × IdtPtr
idt_init stubs idt address =
    let i1 = register 256 0 0 (λ i. stubs.isr_stub) idt in
    let i2 = register 32 0 0 stubs.exception_table i1 in
    let i3 = register 16 0 32 stubs.irq_table i2 in
    (
      put_gate i3 0x80 (new_descriptor stubs.syscall_stub gdt_kernel_code 0xEF),
      record { limit = 256 * 8 - 1; base = address },
    )

-- The address that the processor jumps to.
abbrev pub offset_of : IdtDescriptor → ℕ
offset_of d = d.offset_low + d.offset_high * 2 ^ 16

-- The handler of a vector.
abbrev pub handler : Stubs → ℕ → ℕ
handler stubs v =
    if v == 0x80
    then stubs.syscall_stub
    else if ltb v 32
    then stubs.exception_table v
    else if ltb v 48
    then stubs.irq_table (v - 32)
    else stubs.isr_stub

offset-new_descriptor :
    (offset flags : ℕ)
    → offset < 2 ^ 32
    → offset_of (new_descriptor offset gdt_kernel_code flags) ≡ offset
unfolding new_descriptor
offset-new_descriptor offset flags h = omega (
  arith,
  h,
  bit_and_mask 16 offset,
  bit_and_high 16 offset 0xFFFF,
  bit_and_mask 16 (offset / 2 ^ 16),
)

register_lem :
    (n i offset : ℕ) (table : ℕ → ℕ) (idt : ℕ → IdtDescriptor) (v : ℕ)
    → register n i offset table idt v ≡ (
        if leb (i + offset) v
        then (if ltb v (i + offset + n)
            then new_descriptor (table (v - offset)) gdt_kernel_code 0x8E
            else idt v)
        else idt v)
unfolding register
register_lem zero i offset table idt v = ground arith
register_lem (suc n) i offset table idt v =
    let gate = new_descriptor (table i) gdt_kernel_code 0x8E in
    let rest = register_lem n (i + 1) offset table (put_gate idt (i + offset) gate) v in
    elim (ℕ_discrete v (i + offset)) [
      | yes here ↦
          let own : table (v - offset) ≡ table i = ap table (omega (arith, here)) in
          rw own (ground (arith, rest, here))
      | no other ↦ ground (arith, rest, other)
    ]

gate_lem :
    (stubs : Stubs) (idt : ℕ → IdtDescriptor) (address v : ℕ)
    → v < 256
    → (idt_init stubs idt address).0 v
      ≡ new_descriptor (handler stubs v) gdt_kernel_code (if v == 0x80 then 0xEF else 0x8E)
unfolding idt_init
gate_lem stubs idt address v h =
    let i1 = register 256 0 0 (λ i. stubs.isr_stub) idt in
    let i2 = register 32 0 0 stubs.exception_table i1 in
    let a = register_lem 256 0 0 (λ i. stubs.isr_stub) idt v in
    let b = register_lem 32 0 0 stubs.exception_table i1 v in
    let c = register_lem 16 0 32 stubs.irq_table i2 v in
    let z : stubs.exception_table (v - 0) ≡ stubs.exception_table v =
      ap stubs.exception_table (omega arith) in
    let i3 = register 16 0 32 stubs.irq_table i2 in
    let gate = λ (o : ℕ). new_descriptor o gdt_kernel_code 0x8E in
    elim (ℕ_discrete v 0x80) [
      | yes e ↦ rw e refl
      | no other ↦
          let n : (v == 0x80) ≡ false = ground (arith, other) in
          elim (Bool-cases (ltb v 32)) [
            | inl exception ↦
                let c' : i3 v ≡ i2 v = ground (arith, c, exception) in
                let b' : i2 v ≡ gate (stubs.exception_table (v - 0)) =
                  ground (arith, b, exception) in
                rw (n, exception) (c' ∙ (b' ∙ ap gate z))
            | inr above ↦
                let b' : i2 v ≡ i1 v = ground (arith, b, above) in
                let a' : i1 v ≡ gate stubs.isr_stub = ground (arith, a, h) in
                elim (Bool-cases (ltb v 48)) [
                  | inl irq ↦
                      let c' : i3 v ≡ gate (stubs.irq_table (v - 32)) =
                        ground (arith, c, above, irq) in
                      rw (n, above, irq) c'
                  | inr rest ↦
                      let c' : i3 v ≡ i2 v = ground (arith, c, rest) in
                      rw (n, above, rest) (c' ∙ (b' ∙ a'))
                ]
          ]
    ]

-- After `idt_init`, for each of the 256 vectors whose handler has a 32-bit address, the gate leads
-- to this handler in the kernel's code segment: the exceptions and the hardware interrupts have
-- their own, 0x80 the system call's, and all others the stub. The flags are 0xEF for 0x80 and 0x8E
-- for all others.
pub idt_init_lem :
    (stubs : Stubs) (idt : ℕ → IdtDescriptor) (address v : ℕ)
    → handler stubs v < 2 ^ 32
    → v < 256
    → (offset_of ((idt_init stubs idt address).0 v) ≡ handler stubs v)
      × (((idt_init stubs idt address).0 v).selector ≡ gdt_kernel_code)
      × (((idt_init stubs idt address).0 v).flags ≡ (if v == 0x80 then 0xEF else 0x8E))
unfolding new_descriptor
idt_init_lem stubs idt address v h k =
    let gate = gate_lem stubs idt address v k in
    let flags = if v == 0x80 then 0xEF else 0x8E in
    (
      ap (λ d. offset_of d) gate ∙ offset-new_descriptor (handler stubs v) flags h,
      ap (λ d. d.selector) gate,
      ap (λ d. d.flags) gate,
    )
