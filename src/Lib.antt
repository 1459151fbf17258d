-- ===== src/Lib.antt =====
-- A model of the Emyx kernel's C code, a small operating system for 32-bit x86, with the theorems
-- that make its parts correct.
--
-- Parts and files.
-- - Base: the shared names, Boolean tests, C arrays as lists, machine words with their wrap-around,
--   and `&` and `|` as arithmetic.
-- - Memory: bytes at addresses, and read_le32 of kernel/lib/endian.c.
-- - DirectMap: vmm_phys_to_virt and vmm_virt_to_phys of kernel/mm/vmm.c, the window through which
--   the kernel reaches low physical memory.
-- - Pmm: kernel/mm/pmm.c. The record `Pmm` holds the file's static variables, the bitmap as a list
--   of bytes. Pmm/Bitmap has the laws of single bits, Pmm/Invariant the invariant, Pmm/Alloc
--   allocation and freeing, Pmm/Clients series of calls by callers that hold pages. Pmm/Mmap
--   computes from the boot loader's memory map, and Pmm/Boot is pmm_init, which faults where it
--   writes past the direct map.
-- - Heap: kernel/mm/kmalloc.c. The linked list of block headers is a list of blocks with their
--   addresses. Heap/Blocks and Heap/Coalesce say what splitting and merging do to such a list,
--   Heap/Pages has the invariant and new_block, Heap/Alloc the search, Heap/Calls kmalloc and kfree
--   as a whole, Heap/Reuse what becomes of a freed block. The heap takes its pages from Pmm and
--   reaches them through DirectMap.
-- - Vmm: kernel/mm/vmm.c. The words of memory are a function of the virtual address. Vmm/Entries
--   reads entries and addresses as arithmetic, Vmm/Tree is a directory with its tables and the
--   mapping that it stands for, Vmm/Fresh and Vmm/Table are about new page tables, Vmm/Space is a
--   valid address space and the look-up in it, Vmm/Map and Vmm/Unmap are the operations, and
--   Vmm/Spaces has the definitions that make and destroy address spaces, with the theorem on new
--   ones in Vmm/Spaces/Create.
-- - Sched: kernel/sched.c and kernel/arch/i386/sched.c. A call of sched_yield is the change of
--   state up to sched_context_switch, which saves a stack pointer that is an argument here.
--   Sched/Table is about reaping and Sched/Freed about the memory that it frees, Sched/Switch about
--   a switch, Sched/Yield about sched_yield, Sched/Fair about series of yields.
-- - Keyboard: kernel/keyboard.c, a ring buffer, and the scancode table of
--   kernel/arch/i386/keyboard.c.
-- - Initramfs: kernel/initramfs.c, the archive of files, and boot_init of kernel/boot.c.
-- - Strings: libc/string, over memory as bytes at addresses.
-- - Printk: kernel/lib/printk.c, with the text that goes to terminal_write as a result.
-- - Process: kernel/user.c, over the scheduler, the memory manager, the archive and the keyboard
--   buffer, which the record `Userland` holds beside the file's static variables. Process/Load is
--   about pages and programs, Process/Calls has the calls; Process/Table has the invariant of the
--   process table, Process/Orphans what becomes of children, and the modules of Process/Calls the
--   theorems on exits, waiting, spawning and series of calls.
-- - Syscall: kernel/syscall.c, the dispatch and all six calls; Syscall/Copy is about
--   copy_string_from_user.
-- - Terminal: kernel/arch/i386/tty.c and vga.h. Terminal/Screen compares the writing of a text with
--   an editor of cells, Terminal/Bounds is about what stays on the screen.
-- - Shell: kernel/kshell.c, the line buffer and the choice of a command, with Shell/Line and
--   Shell/Lookup on these two. Commands has the functions of the commands, over the whole machine,
--   and Commands/Poll is kshell_poll with the command that it runs.
-- - Tables: kernel/arch/i386/gdt.c and idt.c, the bytes of the descriptors, with the processor's
--   reading of them as a definition of its own.
-- - Interrupt: kernel/interrupt.c, kernel/timer.c, and interrupt.c, pic.c, pit.c and serial.c of
--   kernel/arch/i386. Interrupt/Keys is about hardware interrupts, Interrupt/Report about
--   exceptions.
-- - Programs: user/init.c, user/shell.c and user/hello.c, over a record of the system calls that user/user.h makes in
--   assembly. Programs/Line is about the line that is typed, Programs/Runs about what it runs.
--
-- How the code is rendered. Numbers are natural numbers; sums and shifts that can wrap are taken
-- modulo 2^32 (`add32`, `shl32`) or 2^64. A pointer is its address, and NULL is 0. A function that
-- changes a static variable takes the state and returns the new one. The address of a word in a
-- page of the direct map, and of an entry of the archive in it, is a plain sum. What printk prints
-- is kept in the field `output` of the state from Process on, and is left out of the functions of
-- the lower parts, which only report what they did. A write to a port is kept in a list of ports
-- and values, and the serial port as the bytes that were sent.
--
-- Memory has two views: the words that the heap and the page tables are made of, as a function in
-- `Vmm`, and the bytes that are read and written as bytes, in `Userland`. The functions that keep
-- to one view do not look at the other. Process ids that are read as an int and are negative count
-- as failures there, as in the code.
--
-- A call that yields in a loop takes the list of what the other tasks do in each of the yields
-- (`turns`), and its result says where it waits still when the list ends; a call that yields once
-- takes one such function (`turn`). The theorems ask of them what they need, such as that they keep
-- the process table valid.
--
-- Fuel. The walk over the memory map has the map's length as fuel, and each entry takes 24 bytes or
-- more; the inner loop of find_segment has four rounds, and all but the last move past one of three
-- ranges. That they suffice is part of the theorems about pmm_init and find_segment. The loop of
-- printk has the length of the format as fuel, and the loop of u32_to_str the ten digits that its
-- buffer holds; the theorems about them show that this is enough, and strlen is shown to end with
-- more fuel than there are characters. All other loops run over a counter or a list. The shell's
-- line is read for as many characters as its buffer has, and a path for as many as the archive's
-- paths may have, which is enough to tell that it is too long.
--
-- Not modelled: the assembly files and what only the processor gives a meaning: reads of ports and
-- registers, kernel/arch/i386/paging.c, the entry of a program by user_enter of
-- kernel/arch/i386/user.c, and the waiting for the serial port in serial_write; kernel/main.c,
-- kernel/arch/i386/arch.c and kernel/lib/panic.c, which call the initialisers in order and halt;
-- and the build scripts.
pub mod Base
pub mod Memory
pub mod DirectMap
pub mod Keyboard
pub mod Pmm
pub mod Heap
pub mod Vmm
pub mod Initramfs
pub mod Printk
pub mod Sched
pub mod Strings
pub mod Process
pub mod Terminal
pub mod Syscall
pub mod Shell
pub mod Tables
pub mod Interrupt
pub mod Commands
pub mod Programs
