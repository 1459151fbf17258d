-- ===== src/Tables/Gdt.antt =====
-- kernel/arch/i386/gdt.c and gdt.h: segment descriptors and the task state segment.
use Prim.Native.Nat.{ℕ}
use emyx.Base.{
  if◌then◌else◌, ◌==◌, ◌+◌, ◌*◌, ◌-◌, ◌/◌, ◌%◌, ◌^◌, ◌<◌, ◌≡◌, List, [], ◌∷◌, bit_and, bit_or, shr,
  arith, bit_and_mask, bit_and_high, bit_or_fields,
}

-- GDT_KERNEL_CODE to GDT_TSS.
abbrev pub gdt_kernel_code : ℕ
gdt_kernel_code = 0x08

abbrev pub gdt_kernel_data : ℕ
gdt_kernel_data = 0x10

abbrev pub gdt_user_code : ℕ
gdt_user_code = 0x18

abbrev pub gdt_user_data : ℕ
gdt_user_data = 0x20

abbrev pub gdt_tss : ℕ
gdt_tss = 0x28

-- TSS_ACCESS, TSS_FLAGS, SEGMENT_LIMIT_4G and SEGMENT_FLAGS_4K_32BIT.
abbrev pub tss_access : ℕ
tss_access = 0x89

abbrev pub tss_flags : ℕ
tss_flags = 0x00

abbrev pub segment_limit_4g : ℕ
segment_limit_4g = 0xFFFFF

abbrev pub segment_flags_4k_32bit : ℕ
segment_flags_4k_32bit = 0xC0

-- `gdt_descriptor`.
pub record GdtDescriptor : Type 0 where
  pub limit_low : ℕ
  pub base_low : ℕ
  pub base_middle : ℕ
  pub access : ℕ
  pub granularity : ℕ
  pub base_high : ℕ

-- `gdt_ptr`.
pub record GdtPtr : Type 0 where
  pub limit : ℕ
  pub base : ℕ

-- `i386_tss`.
pub record Tss : Type 0 where
  pub prev_tss : ℕ
  pub esp0 : ℕ
  pub ss0 : ℕ
  pub esp1 : ℕ
  pub ss1 : ℕ
  pub esp2 : ℕ
  pub ss2 : ℕ
  pub cr3 : ℕ
  pub eip : ℕ
  pub eflags : ℕ
  pub eax : ℕ
  pub ecx : ℕ
  pub edx : ℕ
  pub ebx : ℕ
  pub esp : ℕ
  pub ebp : ℕ
  pub esi : ℕ
  pub edi : ℕ
  pub es : ℕ
  pub cs : ℕ
  pub ss : ℕ
  pub ds : ℕ
  pub fs : ℕ
  pub gs : ℕ
  pub ldt : ℕ
  pub trap : ℕ
  pub iopb : ℕ

pub new_descriptor : ℕ → ℕ → ℕ → ℕ → GdtDescriptor
new_descriptor base limit access flags = record {
  limit_low = bit_and limit 0x0000FFFF;
  base_low = bit_and base 0x0000FFFF;
  base_middle = shr (bit_and base 0x00FF0000) 16;
  access = access;
  granularity = bit_or (bit_and flags 0xF0) (bit_and (shr limit 16) 0x0F);
  base_high = shr (bit_and base 0xFF000000) 24;
}

-- `stack_top` is the address of the linker's symbol; the structure has 104 bytes.
pub tss_init : Tss → ℕ → Tss
tss_init t stack_top = record t { ss0 = gdt_kernel_data; esp0 = stack_top; iopb = 104 }

-- The task state segment, the table, and the pointer that is loaded, for the addresses of the first two
-- and of the stack. Loading them is the processor's.
pub gdt_init : Tss → ℕ → ℕ → ℕ → Tss × List GdtDescriptor × GdtPtr
gdt_init t tss gdt stack_top = (
  tss_init t stack_top,
  new_descriptor 0 0 0 0
      ∷ new_descriptor 0 segment_limit_4g 0x9A segment_flags_4k_32bit
      ∷ new_descriptor 0 segment_limit_4g 0x92 segment_flags_4k_32bit
      ∷ new_descriptor 0 segment_limit_4g 0xFA segment_flags_4k_32bit
      ∷ new_descriptor 0 segment_limit_4g 0xF2 segment_flags_4k_32bit
      ∷ new_descriptor tss (104 - 1) tss_access tss_flags
      ∷ [],
  record { limit = 48 - 1; base = gdt },
)

pub tss_set_kernel_stack : Tss → ℕ → Tss
tss_set_kernel_stack t stack = record t { esp0 = stack }

-- What the processor reads in a descriptor.
abbrev pub base_of : GdtDescriptor → ℕ
base_of d = d.base_low + d.base_middle * 2 ^ 16 + d.base_high * 2 ^ 24

abbrev pub limit_of : GdtDescriptor → ℕ
limit_of d = d.limit_low + d.granularity % 16 * 2 ^ 16

-- The size in bytes, in units of 4 KiB where the granularity bit is set.
abbrev pub span_of : GdtDescriptor → ℕ
span_of d = if d.granularity / 128 == 1 then (limit_of d + 1) * 4096 else limit_of d + 1

-- The fields of a descriptor fit the bytes that they are stored in.
pub record Fits (d : GdtDescriptor) : Type 0 where
  pub limit_low_in : d.limit_low < 2 ^ 16
  pub base_low_in : d.base_low < 2 ^ 16
  pub base_middle_in : d.base_middle < 2 ^ 8
  pub granularity_in : d.granularity < 2 ^ 8
  pub base_high_in : d.base_high < 2 ^ 8

base_middle_eq : (base : ℕ) → shr (bit_and base 0x00FF0000) 16 ≡ base / 2 ^ 16 % 256
base_middle_eq base = omega (arith, bit_and_high 16 base 0xFF, bit_and_mask 8 (base / 2 ^ 16))

base_high_eq : (base : ℕ) → shr (bit_and base 0xFF000000) 24 ≡ base / 2 ^ 24 % 256
base_high_eq base = omega (arith, bit_and_high 24 base 0xFF, bit_and_mask 8 (base / 2 ^ 24))

granularity_eq :
    (flags limit : ℕ)
    → bit_or (bit_and flags 0xF0) (bit_and (shr limit 16) 0x0F)
      ≡ flags / 16 % 16 * 16 + limit / 2 ^ 16 % 16
granularity_eq flags limit =
    rw (bit_and_mask 4 (shr limit 16), bit_and_high 4 flags 0xF, bit_and_mask 4 (flags / 2 ^ 4))
      (bit_or_fields 4 (flags / 2 ^ 4 % 2 ^ 4) (shr limit 16 % 2 ^ 4) (omega arith))

-- For a base of 32 bits, a limit of 20 bits and flags of 8 bits, the fields of the new segment
-- descriptor fit the bytes that they are stored in, and the processor reads the same base, limit
-- and upper four flags from them, whatever the access byte.
pub new_descriptor_lem :
    (base limit access flags : ℕ)
    → base < 2 ^ 32
    → limit < 2 ^ 20
    → flags < 2 ^ 8
    → Fits (new_descriptor base limit access flags)
      × (base_of (new_descriptor base limit access flags) ≡ base)
      × (limit_of (new_descriptor base limit access flags) ≡ limit)
      × ((new_descriptor base limit access flags).granularity / 16 ≡ flags / 16)
unfolding new_descriptor
new_descriptor_lem base limit access flags h k m =
    let low = bit_and_mask 16 base in
    let mid = base_middle_eq base in
    let high = base_high_eq base in
    let lim = bit_and_mask 16 limit in
    let gran = granularity_eq flags limit in
    (
      record {
        limit_low_in = omega (arith, lim);
        base_low_in = omega (arith, low);
        base_middle_in = omega (arith, mid);
        granularity_in = omega (arith, gran);
        base_high_in = omega (arith, high);
      },
      omega (arith, low, mid, high, h),
      omega (arith, lim, gran, k),
      omega (arith, gran, m),
    )
