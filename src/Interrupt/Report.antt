-- ===== src/Interrupt/Report.antt =====
-- kernel/arch/i386/interrupt.c, and `ex_handler` of kernel/interrupt.c: the report on an exception.
use Prim.Native.Nat.{ℕ}
use emyx.Base.{
  ◌≤◌, inl, inr, List, [], ◌∷◌, ◌++◌, some, length, get_or, bit_and, shr, ltb, ◌==◌, if◌then◌else◌,
  Bool-cases, codes, arith,
}
use emyx.Printk.{str, printk, u32_to_hex, c_string}
use emyx.Interrupt.{serial_writestring}

-- `ex_frame`.
pub record ExFrame : Type 0 where
  pub vector : ℕ
  pub error_code : ℕ
  pub eip : ℕ
  pub cs : ℕ
  pub eflags : ℕ
  pub user_esp : ℕ
  pub user_ss : ℕ

-- `ex_extra`.
pub record ExExtra : Type 0 where
  pub name : List ℕ
  pub value : ℕ

-- `ex_report`; `extras` has the first `extra_count` entries of the array.
pub record ExReport : Type 0 where
  pub name : List ℕ
  pub vector : ℕ
  pub error_code : ℕ
  pub pc : ℕ
  pub status : ℕ
  pub extras : List ExExtra

abbrev pub exception_names : List (List ℕ)
exception_names =
    codes "#DE divide by zero"
    ∷ codes "#DB debug"
    ∷ codes "NMI interrupt"
    ∷ codes "#BP breakpoint"
    ∷ codes "#OF overflow"
    ∷ codes "#BR bound range exceeded"
    ∷ codes "#UD invalid opcode"
    ∷ codes "#NM device not available"
    ∷ codes "#DF double fault"
    ∷ codes "coprocessor segment overrun"
    ∷ codes "#TS invalid TSS"
    ∷ codes "#NP segment not present"
    ∷ codes "#SS stack-segment fault"
    ∷ codes "#GP general protection fault"
    ∷ codes "#PF page fault"
    ∷ codes "reserved"
    ∷ codes "#MF x87 floating-point exception"
    ∷ codes "#AC alignment check"
    ∷ codes "#MC machine check"
    ∷ codes "#XM SIMD floating-point exception"
    ∷ codes "#VE virtualization exception"
    ∷ codes "#CP control protection exception"
    ∷ codes "reserved"
    ∷ codes "reserved"
    ∷ codes "reserved"
    ∷ codes "reserved"
    ∷ codes "reserved"
    ∷ codes "reserved"
    ∷ codes "#HV hypervisor injection exception"
    ∷ codes "#VC VMM communication exception"
    ∷ codes "#SX security exception"
    ∷ codes "reserved"
    ∷ []

abbrev pub extra : List ℕ → ℕ → ExExtra
extra name value = record { name = name; value = value }

-- `(error >> k) & 0x1`.
abbrev pub error_bit : ℕ → ℕ → ℕ
error_bit error k = bit_and (shr error k) 0x1

abbrev pub user_extras : ExFrame → List ExExtra
user_extras frame =
    if bit_and frame.cs 0x3 == 0
    then []
    else (extra (codes "USER_ESP") frame.user_esp ∷ extra (codes "USER_SS") frame.user_ss ∷ [])

abbrev pub fault_extras : ExFrame → ℕ → List ExExtra
fault_extras frame cr2 =
    if frame.vector == 14
    then (extra (codes "CR2") cr2
        ∷ extra (codes "PF_PRESENT") (error_bit frame.error_code 0)
        ∷ extra (codes "PF_WRITE") (error_bit frame.error_code 1)
        ∷ extra (codes "PF_USER") (error_bit frame.error_code 2)
        ∷ extra (codes "PF_RSVD") (error_bit frame.error_code 3)
        ∷ extra (codes "PF_ID") (error_bit frame.error_code 4)
        ∷ [])
    else []

-- The report that `ex_handler` is called with, for the address that `paging_fault_addr` gives.
pub i386_ex_handler : ExFrame → ℕ → ExReport
i386_ex_handler frame cr2 = record {
  name = if ltb frame.vector 32 then get_or exception_names frame.vector [] else codes "unknown";
  vector = frame.vector;
  error_code = frame.error_code;
  pc = frame.eip;
  status = frame.eflags;
  extras = extra (codes "CS") frame.cs ∷ (user_extras frame ++ fault_extras frame cr2);
}

-- The array of the report has twelve entries, and is never written past its end.
pub extras-length : (frame : ExFrame) (cr2 : ℕ) → length (i386_ex_handler frame cr2).extras ≤ 12
unfolding i386_ex_handler
extras-length frame cr2 = elim (Bool-cases (bit_and frame.cs 0x3 == 0)) [
  | inl kernel ↦ elim (Bool-cases (frame.vector == 14)) [
    | inl fault ↦ rw (kernel, fault) (omega arith)
    | inr other ↦ rw (kernel, other) (omega arith)
  ]
  | inr user ↦ elim (Bool-cases (frame.vector == 14)) [
    | inl fault ↦ rw (user, fault) (omega arith)
    | inr other ↦ rw (user, other) (omega arith)
  ]
]

abbrev pub text_line : List ℕ → List ℕ → List ℕ
text_line format value = (printk format (str (some value) ∷ [])).0

-- What `ex_handler` prints and what it sends to the serial port, before it halts.
pub extras_text : List ExExtra → List ℕ × List ℕ
extras_text [] = ([], [])
extras_text (e ∷ es) =
    let (printed, sent) = extras_text es in
    let hex = c_string (u32_to_hex e.value) in
    (
      (printk (codes "%s: %s\n") (str (some e.name) ∷ str (some hex) ∷ [])).0 ++ printed,
      serial_writestring e.name
          ++ serial_writestring (codes ": ")
          ++ serial_writestring hex
          ++ serial_writestring (codes "\n")
          ++ sent,
    )

pub ex_handler : ExReport → List ℕ × List ℕ
ex_handler report =
    let error_hex = u32_to_hex report.error_code in
    let pc_hex = u32_to_hex report.pc in
    let status_hex = u32_to_hex report.status in
    let (printed, sent) = extras_text report.extras in
    (
      text_line (codes "EXCEPTION: %s\n") report.name
          ++ text_line (codes "Error code: %s\n") (c_string error_hex)
          ++ text_line (codes "PC: %s\n") (c_string pc_hex)
          ++ text_line (codes "Status: %s\n") (c_string status_hex)
          ++ printed,
      serial_writestring (codes "EXCEPTION: ")
          ++ serial_writestring report.name
          ++ serial_writestring (codes "\n")
          ++ serial_writestring (codes "Error code: ")
          ++ serial_writestring error_hex
          ++ serial_writestring (codes "\n")
          ++ serial_writestring (codes "PC: ")
          ++ serial_writestring pc_hex
          ++ serial_writestring (codes "\n")
          ++ serial_writestring (codes "Status: ")
          ++ serial_writestring status_hex
          ++ serial_writestring (codes "\n")
          ++ sent,
    )
