-- ===== src/Shell.antt =====
-- kernel/kshell.c: the line buffer of the kernel's shell, and its table of commands.
pub mod Line
pub mod Lookup
mod Tests
use Prim.Native.Nat.{ℕ, zero, suc}
use emyx.Base.{
  ◌+◌, ◌-◌, Bool, true, false, not, ◌&&◌, Option, none, some, List, [], ◌∷◌, ◌++◌, replicate,
  get_or, set, ltb, ◌==◌, if◌then◌else◌, codes,
}
use emyx.Memory.{Memory}
use emyx.Strings.{strlen, memcmp, Order}
use emyx.Printk.{Arg, char, str, printk}

-- `sizeof(buffer)`.
abbrev pub buffer_size : ℕ
buffer_size = 128

-- The static variables of kshell.c, and what was printed.
pub record Kshell : Type 0 where
  pub buffer : List ℕ
  pub length : ℕ
  pub command_ready : Bool
  pub active : Bool
  pub output : List ℕ

abbrev pub print : Kshell → List ℕ → List Arg → Kshell
print k format args = record k { output = k.output ++ (printk format args).0 }

pub kshell_init : Kshell → Kshell
kshell_init k =
    let k1 : Kshell = record k { buffer = replicate 128 0; length = 0; command_ready = false } in
    record (print k1 (codes "kshell> ") []) { active = true }

abbrev pub echo : Kshell → ℕ → Kshell
echo k c = print k (codes "%c") (char c ∷ [])

-- `length--; buffer[length] = '\0';`
abbrev pub erase : Kshell → Kshell
erase k = record k { length = k.length - 1; buffer = set k.buffer (k.length - 1) 0 }

-- `buffer[length++] = c; buffer[length] = '\0';`
abbrev pub append : Kshell → ℕ → Kshell
append k c = record k {
  length = k.length + 1;
  buffer = set (set k.buffer k.length c) (k.length + 1) 0;
}

-- A `char` is the byte that it is stored as.
pub kshell_on_char : Kshell → ℕ → Kshell
kshell_on_char k c =
    if not k.active
    then k
    else if c == 10
    then record (echo k c) { command_ready = true }
    else if c == 8
    then (if ltb 0 k.length then echo (erase k) c else k)
    else if ltb k.length (buffer_size - 1)
    then echo (append k c) c
    else k

-- The functions of the table.
pub data Command : Type 0 where
  help clear ticks irq panic reboot pagefault vmmtest heaptest initramfs : Command
  userspawn userland yield : Command

-- `kshell_cmd`.
pub record KshellCmd : Type 0 where
  pub name : List ℕ
  pub desc : List ℕ
  pub fn : Command

abbrev pub entry : List ℕ → List ℕ → Command → KshellCmd
entry name desc fn = record { name = name; desc = desc; fn = fn }

abbrev pub commands : List KshellCmd
commands =
    entry (codes "help") (codes "List commands") Command.help
    ∷ entry (codes "clear") (codes "Clear screen") Command.clear
    ∷ entry (codes "ticks") (codes "Show timer") Command.ticks
    ∷ entry (codes "irq") (codes "Show IRQ info") Command.irq
    ∷ entry (codes "panic") (codes "Trigger a kernel panic") Command.panic
    ∷ entry (codes "reboot") (codes "Reboot machine") Command.reboot
    ∷ entry (codes "pagefault") (codes "Trigger page fault") Command.pagefault
    ∷ entry (codes "vmmtest") (codes "Run VMM smoke test") Command.vmmtest
    ∷ entry (codes "heaptest") (codes "Run heap smoke test") Command.heaptest
    ∷ entry (codes "initramfs") (codes "Show first boot module") Command.initramfs
    ∷ entry (codes "userspawn") (codes "Spawn user program by path") Command.userspawn
    ∷ entry (codes "userland") (codes "Start the userland init process") Command.userland
    ∷ entry (codes "yield") (codes "Yield to the next runnable task") Command.yield
    ∷ []

-- The loop over the characters before the first space, with `n` rounds from `i` on.
pub word_from : ℕ → ℕ → List ℕ → ℕ
word_from zero i buffer = i
word_from (suc n) i buffer =
    let rest = word_from n (i + 1) buffer in if get_or buffer i 0 == b' ' then i else rest

-- A memory with the buffer at 0 and a name at 128.
abbrev pub both : List ℕ → List ℕ → Memory
both buffer name p =
    if ltb p buffer_size then get_or buffer p 0 else get_or name (p - buffer_size) 0

abbrev pub is_equal : Order → Bool
is_equal Order.less = false
is_equal Order.equal = true
is_equal Order.greater = false

-- What `kshell_exec` does: nothing on an empty line, a command, or the message on an unknown one.
pub data Action : Type 0 where
  nothing unknown : Action
  run : Command → Action

-- `strlen` of a constant, and of the buffer, which has 128 bytes.
abbrev pub size : List ℕ → ℕ
size name = emyx.Base.length name

pub line_length : List ℕ → ℕ
line_length buffer = elim (strlen buffer_size (λ i. get_or buffer i 0) 0 0) [
  | none ↦ buffer_size
  | some len ↦ len
]

-- The loop over the table.
pub find_from : List KshellCmd → ℕ → List ℕ → Action
find_from [] input_cmd_len buffer = unknown
find_from (cmd ∷ cmds) input_cmd_len buffer =
    let rest = find_from cmds input_cmd_len buffer in
    if (size cmd.name == input_cmd_len)
      && is_equal (memcmp (both buffer cmd.name) 0 buffer_size (size cmd.name))
    then run cmd.fn
    else rest

pub kshell_exec : Kshell → Action
kshell_exec k =
    if line_length k.buffer == 0
    then nothing
    else find_from commands (word_from k.length 0 k.buffer) k.buffer

-- The action that `kshell_poll` takes, if a command is ready. Once it is done, `kshell_init` follows.
pub kshell_poll : Kshell → Option Action
kshell_poll k = if not k.command_ready then none else some (kshell_exec k)
