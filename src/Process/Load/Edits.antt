-- ===== src/Process/Load/Edits.antt =====
-- kernel/user.c: what the functions on the pages of a process leave as it was.
use Prim.Native.Nat.{ℕ, zero, suc}
use emyx.Base.{
  bit_or, ◌+◌, ◌<◌, ◌≡◌, inl, inr, refl, sym, ap, subst, ◌∙◌, Bool, true, false, Option, none, some,
  List, get_or, set, ltb, leb, ◌==◌, Bool-cases, length, length-set, get_or-set_self, set-set,
  set-get_or,
}
use emyx.Memory.{Memory}
use emyx.DirectMap.{vmm_phys_to_virt}
use emyx.Pmm.{pmm_alloc_page, pmm_free_page, page_size}
use emyx.Vmm.{Vmm, vmm_map_page_in, vmm_unmap_page_in, page_present, page_writable, page_user}
use emyx.Initramfs.{initramfs_find}
use emyx.Process.{
  Process, Page, no_process, no_page, Userland, process_at, put_process, with_vmm, max_pages,
}
use emyx.Process.Load.{
  free_pages_from, user_process_free_pages, fill_page, keep_page, map_copied_user_page,
  words_of_page, set_entry, load_code, load_file, load_emxf, check_emxf, finish_exec, map_stack,
  user_prepare_exec, code_addr, stack_addr, emxf_header_size,
}

-- Only what user.c notes of the program and its pages differs in the record.
pub record Keeps (p q : Process) : Type 0 where
  pub pid : q.pid ≡ p.pid
  pub task_id : q.task_id ≡ p.task_id
  pub parent_pid : q.parent_pid ≡ p.parent_pid
  pub address_space : q.address_space ≡ p.address_space
  pub exit_status : q.exit_status ≡ p.exit_status
  pub state : q.state ≡ p.state

-- Of the processes only number `i` differs, and the scheduler has the same tasks.
pub record Edits (s : Userland) (i : ℕ) (r : Userland) : Type 0 where
  pub record_of : Process
  pub processes : r.processes ≡ set s.processes i record_of
  pub keeps : Keeps (process_at s i) record_of
  pub next_pid : r.next_pid ≡ s.next_pid
  pub tasks : r.sched.tasks ≡ s.sched.tasks
  pub current_task : r.sched.current_task ≡ s.sched.current_task
  pub next_task_id : r.sched.next_task_id ≡ s.sched.next_task_id

pub Edits-refl : (s : Userland) (i : ℕ) → Edits s i s
Edits-refl s i = record {
  record_of = process_at s i;
  processes = sym (set-get_or s.processes i no_process);
  keeps = record {
    pid = refl;
    task_id = refl;
    parent_pid = refl;
    address_space = refl;
    exit_status = refl;
    state = refl;
  };
  next_pid = refl;
  tasks = refl;
  current_task = refl;
  next_task_id = refl;
}

-- The record that is there after an edit.
pub edited :
    (s r : Userland) (i : ℕ) (e : Edits s i r)
    → i < length s.processes
    → process_at r i ≡ e.record_of
edited s r i e h = rw (e.processes) (get_or-set_self s.processes i e.record_of no_process h)

pub Edits-trans :
    (s r q : Userland) (i : ℕ) → i < length s.processes → Edits s i r → Edits r i q → Edits s i q
Edits-trans s r q i h a b =
    let at : process_at r i ≡ a.record_of = edited s r i a h in
    let k : Keeps a.record_of b.record_of = subst (λ p. Keeps p b.record_of) at b.keeps in
    record {
      record_of = b.record_of;
      processes =
          b.processes
          ∙ (ap (λ ps. set ps i b.record_of) a.processes
              ∙ set-set s.processes i a.record_of b.record_of);
      keeps = record {
        pid = k.pid ∙ a.keeps.pid;
        task_id = k.task_id ∙ a.keeps.task_id;
        parent_pid = k.parent_pid ∙ a.keeps.parent_pid;
        address_space = k.address_space ∙ a.keeps.address_space;
        exit_status = k.exit_status ∙ a.keeps.exit_status;
        state = k.state ∙ a.keeps.state;
      };
      next_pid = b.next_pid ∙ a.next_pid;
      tasks = b.tasks ∙ a.tasks;
      current_task = b.current_task ∙ a.current_task;
      next_task_id = b.next_task_id ∙ a.next_task_id;
    }

-- A record put with other pages, and another memory manager.
pub put-Edits :
    (s : Userland) (vmm : Vmm) (i : ℕ) (q : Process)
    → Keeps (process_at s i) q
    → Edits s i (put_process (with_vmm s vmm) i q)
put-Edits s vmm i q k = record {
  record_of = q;
  processes = refl;
  keeps = k;
  next_pid = refl;
  tasks = refl;
  current_task = refl;
  next_task_id = refl;
}

-- What user.c notes of the program and its pages is another.
noted :
    (p : Process) (entry stack stack_size page_count : ℕ) (pages : List Page)
    → Keeps p (record p {
      entry = entry;
      stack = stack;
      stack_size = stack_size;
      pages = pages;
      page_count = page_count;
    })
noted p entry stack stack_size page_count pages = record {
  pid = refl;
  task_id = refl;
  parent_pid = refl;
  address_space = refl;
  exit_status = refl;
  state = refl;
}

free_pages_from-Edits :
    (n j i : ℕ) (s : Userland) → i < length s.processes → Edits s i (free_pages_from n j i s)
unfolding free_pages_from
free_pages_from-Edits zero j i s h = Edits-refl s i
free_pages_from-Edits (suc n) j i s h =
    let p = process_at s i in
    let page = get_or p.pages j no_page in
    let vmm = (vmm_unmap_page_in s.sched.vmm p.address_space page.vaddr).1 in
    let q : Process = record p { pages = set p.pages j no_page } in
    let freed : Vmm = record vmm { pmm = pmm_free_page vmm.pmm page.paddr } in
    let r = put_process (with_vmm s freed) i q in
    Edits-trans s r (free_pages_from n (j + 1) i r) i h
      (put-Edits s freed i q (noted p p.entry p.stack p.stack_size p.page_count q.pages))
      (free_pages_from-Edits n (j + 1) i r (rw (length-set s.processes i q) h))

pub Edits-length : (s r : Userland) (i : ℕ) → Edits s i r → length r.processes ≡ length s.processes
Edits-length s r i e = rw (e.processes) (length-set s.processes i e.record_of)

pub free_pages-Edits :
    (s : Userland) (i : ℕ) → i < length s.processes → Edits s i (user_process_free_pages s i)
unfolding user_process_free_pages
free_pages-Edits s i h =
    let n = (process_at s i).page_count in
    let r = free_pages_from n 0 i s in
    let e = free_pages_from-Edits n 0 i s h in
    let p = process_at r i in
    let q : Process = record p { page_count = 0 } in
    Edits-trans s r (put_process r i q) i h e
      (put-Edits r r.sched.vmm i q (noted p p.entry p.stack p.stack_size 0 p.pages))

-- What does not touch the processes or the tasks.
vmm-Edits : (s : Userland) (vmm : Vmm) (i : ℕ) → Edits s i (with_vmm s vmm)
vmm-Edits s vmm i =
    let e = Edits-refl s i in
    record {
      record_of = e.record_of;
      processes = e.processes;
      keeps = e.keeps;
      next_pid = refl;
      tasks = refl;
      current_task = refl;
      next_task_id = refl;
    }

keep_page-Edits :
    (s : Userland) (i vaddr paddr : ℕ) (result : Bool × Vmm)
    → Edits s i (keep_page s i vaddr paddr result).1
unfolding keep_page
keep_page-Edits s i vaddr paddr (false, vmm) =
    vmm-Edits s (record vmm { pmm = pmm_free_page vmm.pmm paddr }) i
keep_page-Edits s i vaddr paddr (true, vmm) =
    let p = process_at s i in
    let pages = set p.pages p.page_count (record { vaddr = vaddr; paddr = paddr }) in
    put-Edits s vmm i (record p { pages = pages; page_count = p.page_count + 1 })
      (noted p p.entry p.stack p.stack_size (p.page_count + 1) pages)

-- The memory plays no part.
memory-Edits :
    (s : Userland) (mem : Memory) (i : ℕ) (r : Userland)
    → Edits (record s { memory = mem }) i r
    → Edits s i r
memory-Edits s mem i r e = record {
  record_of = e.record_of;
  processes = e.processes;
  keeps = e.keeps;
  next_pid = e.next_pid;
  tasks = e.tasks;
  current_task = e.current_task;
  next_task_id = e.next_task_id;
}

map_copied-Edits :
    (s : Userland) (i vaddr : ℕ) (src : Option ℕ) (size flags : ℕ)
    → Edits s i (map_copied_user_page s i vaddr src size flags).1
unfolding map_copied_user_page
map_copied-Edits s i vaddr src size flags =
    let p = process_at s i in
    let (paddr, pmm) = pmm_alloc_page s.sched.vmm.pmm in
    let page = vmm_phys_to_virt paddr in
    let mem = fill_page s.memory page src size in
    let mapped =
      vmm_map_page_in
        (record s.sched.vmm { pmm = pmm; words = words_of_page mem page s.sched.vmm.words })
        p.address_space vaddr paddr (bit_or (bit_or page_present page_user) flags) in
    elim (Bool-cases (leb max_pages p.page_count)) [
      | inl full ↦ rw full (Edits-refl s i)
      | inr room ↦ elim (Bool-cases (ltb page_size size)) [
        | inl long ↦ rw (room, long) (Edits-refl s i)
        | inr short ↦ elim (Bool-cases (paddr == 0)) [
          | inl none_free ↦
              rw (room, short, none_free) (vmm-Edits s (record s.sched.vmm { pmm = pmm }) i)
          | inr some_free ↦ elim (Bool-cases (page == 0)) [
            | inl outside ↦
                rw (room, short, some_free, outside)
                  (vmm-Edits s (record s.sched.vmm { pmm = pmm_free_page pmm paddr }) i)
            | inr inside ↦
                rw (room, short, some_free, inside)
                  (memory-Edits s mem i
                    (keep_page (record s { memory = mem }) i vaddr paddr mapped).1
                    (keep_page-Edits (record s { memory = mem }) i vaddr paddr mapped))
          ]
        ]
      ]
    ]

set_entry-Edits :
    (s : Userland) (i offset : ℕ) (result : Bool × Userland)
    → i < length s.processes
    → Edits s i result.1
    → Edits s i (set_entry i offset result).1
unfolding set_entry
set_entry-Edits s i offset (false, r) h e = e
set_entry-Edits s i offset (true, r) h e =
    let p = process_at r i in
    let q : Process = record p { entry = code_addr + offset } in
    Edits-trans s r (put_process r i q) i h e (
      put-Edits r r.sched.vmm i q
        (noted p (code_addr + offset) p.stack p.stack_size p.page_count p.pages))

load_code-Edits :
    (s : Userland) (i image : ℕ) (header : Option (ℕ × ℕ))
    → i < length s.processes
    → Edits s i (load_code s i image header).1
unfolding load_code
load_code-Edits s i image none h = Edits-refl s i
load_code-Edits s i image (some (code_size, offset)) h =
    set_entry-Edits s i offset
      (map_copied_user_page s i code_addr (some (image + emxf_header_size)) code_size 0) h
      (map_copied-Edits s i code_addr (some (image + emxf_header_size)) code_size 0)

pub load_emxf-Edits :
    (s : Userland) (i image size : ℕ)
    → i < length s.processes
    → Edits s i (load_emxf s i image size).1
unfolding load_emxf
load_emxf-Edits s i image size h = load_code-Edits s i image (check_emxf s.memory image size) h

undone :
    (s r : Userland) (i : ℕ)
    → i < length s.processes
    → Edits s i r
    → Edits s i (user_process_free_pages r i)
undone s r i h e =
    Edits-trans s r (user_process_free_pages r i) i h e
      (free_pages-Edits r i (rw (Edits-length s r i e) h))

finish_exec-Edits :
    (s : Userland) (i : ℕ) (result : Bool × Userland)
    → i < length s.processes
    → Edits s i result.1
    → Edits s i (finish_exec i result).1
unfolding finish_exec
finish_exec-Edits s i (false, r) h e = undone s r i h e
finish_exec-Edits s i (true, r) h e =
    let p = process_at r i in
    let q : Process = record p { stack = stack_addr; stack_size = page_size } in
    Edits-trans s r (put_process r i q) i h e
      (put-Edits r r.sched.vmm i q (noted p p.entry stack_addr page_size p.page_count p.pages))

map_stack-Edits :
    (s : Userland) (i : ℕ) (result : Bool × Userland)
    → i < length s.processes
    → Edits s i result.1
    → Edits s i (map_stack i result).1
unfolding map_stack
map_stack-Edits s i (false, r) h e = undone s r i h e
map_stack-Edits s i (true, r) h e =
    let result = map_copied_user_page r i stack_addr none 0 page_writable in
    finish_exec-Edits s i result h
      (Edits-trans s r result.1 i h e (map_copied-Edits r i stack_addr none 0 page_writable))

load_file-Edits :
    (s : Userland) (i : ℕ) (file : Option (ℕ × ℕ))
    → i < length s.processes
    → Edits s i (load_file s i file).1
unfolding load_file
load_file-Edits s i none h = free_pages-Edits s i h
load_file-Edits s i (some (emxf, size)) h =
    map_stack-Edits s i (load_emxf s i emxf size) h (load_emxf-Edits s i emxf size h)

pub prepare_exec-Edits :
    (s : Userland) (i : ℕ) (path : ℕ → ℕ)
    → i < length s.processes
    → Edits s i (user_prepare_exec s i path).1
unfolding user_prepare_exec
prepare_exec-Edits s i path h = load_file-Edits s i (initramfs_find s.memory s.archive path) h
