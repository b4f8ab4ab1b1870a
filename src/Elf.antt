-- ===== src/Elf.antt =====
-- kernel/src/kernel/vfs/elf.c: the loader of programs. `base` is the address of the file in the kernel's memory,
-- and `name` that of the string "task". The copy of a segment runs under the task's own page directory, so what
-- the processor does with a byte that is stored there is a parameter, `store`: it gets the tables, the
-- directory, the linear address and the byte, and its faults are `fault`. What is printed is left out.
pub mod Loaded
pub mod Segment
pub mod Tests
use rubi_kernel.Prelude.{
  ℕ, zero, suc, ◌+◌, ◌-◌, ◌*◌, ◌&&◌, leb, ltb, ◌/◌, ◌^◌, Bool, true, false, some, ◌==◌,
  if◌then◌else◌, u32, for_range, Run, ok, fault, ◌>>=◌,
}
use rubi_kernel.Klib.Text.{Mem, read32, write32}
use rubi_kernel.Memory.Layout.{page_size}
use rubi_kernel.Memory.Heap.{Kheap, kmalloc}
use rubi_kernel.Memory.Mmu.{PageTableEntry, Mmu, alloc_page, bind_table}
use rubi_kernel.Memory.Tables.{entry_size, create_page_directory, create_page_table}
use rubi_kernel.Sched.{TaskMem, task_running, set_task}
use rubi_kernel.Sched.Life.{Machine, task_create}

-- The entries of tables and directories are kept apart from the bytes of memory: these two are what the copy of
-- the kernel's directory and the clearing of a table are for the entries.
abbrev pub copied_directory : (dir : ℕ) → Mmu → Mmu
copied_directory dir k = record k {
  directory = λ a.
      if leb dir a && ltb a (dir + entry_size * 1024)
      then k.directory (k.kernel_page_directory + (a - dir))
      else k.directory a;
}

abbrev pub absent_page : PageTableEntry
absent_page = record {
  present = 0;
  read_write = 0;
  user_supervisor = 0;
  write_through = 0;
  cache_disabled = 0;
  accessed = 0;
  dirty = 0;
  zero_bit = 0;
  global = 0;
  available = 0;
  page_phys_addr = 0;
}

abbrev pub cleared_table : (table count : ℕ) → Mmu → Mmu
cleared_table table count k = record k {
  table = λ a. if leb table a && ltb a (table + entry_size * count) then absent_page else k.table a;
}

abbrev pub read16 : Mem → ℕ → ℕ
read16 m a = m a + m (a + 1) * 2 ^ 8

-- the fields of struct elf_header_t, by their offsets
abbrev pub e_entry : Mem → ℕ → ℕ
e_entry m base = read32 m (base + 24)

abbrev pub e_phoff : Mem → ℕ → ℕ
e_phoff m base = read32 m (base + 28)

abbrev pub e_phentsize : Mem → ℕ → ℕ
e_phentsize m base = read16 m (base + 42)

abbrev pub e_phnum : Mem → ℕ → ℕ
e_phnum m base = read16 m (base + 44)

-- the fields of struct elf_program_header_t
abbrev pub p_offset : Mem → ℕ → ℕ
p_offset m h = read32 m (h + 4)

abbrev pub p_vaddr : Mem → ℕ → ℕ
p_vaddr m h = read32 m (h + 8)

abbrev pub p_filesz : Mem → ℕ → ℕ
p_filesz m h = read32 m (h + 16)

abbrev pub p_memsz : Mem → ℕ → ℕ
p_memsz m h = read32 m (h + 20)

-- the address of a program header
abbrev pub header_at : Mem → (base i : ℕ) → ℕ
header_at m base i = u32 (e_phoff m base + base + i * e_phentsize m base)

-- the pages that a segment gets
abbrev pub pages_for : (memsz : ℕ) → ℕ
pages_for memsz = memsz / page_size + 1

-- the kernel, the task's memory so far, and what is stored in its frames
pub record Loader (W : Type 0) : Type 0 where
  pub machine : Machine
  pub task_mem : TaskMem
  pub world : W

module _ {W : Type 0} where
  -- the state before the first segment: `table` is bound for the lowest addresses
  unfoldable pub new_loader : (dir table pages : ℕ) → Mem → Kheap → Machine → W → Loader W
  new_loader dir table pages m h s w = record {
    machine = record s {
      mem = m;
      heap = h;
      mmu = bind_table dir table 0 (cleared_table table 32 (copied_directory dir s.mmu));
    };
    task_mem = record { pages = pages; pages_count = 0; page_dir = dir; page_table = table };
    world = w;
  }

  -- one round of the loop over a segment's pages
  unfoldable pub add_page : (h i : ℕ) → Loader W → Loader W
  add_page h i s =
      let t = s.task_mem in
      let at =
        write32 s.machine.mem (u32 (t.pages + 4 * t.pages_count))
          (u32 (p_vaddr s.machine.mem h + i * page_size)) in
      record s {
        machine = record s.machine {
          mem = at;
          mmu = (alloc_page t.page_table (u32 (p_vaddr at h + i * page_size)) s.machine.mmu).1;
        };
        task_mem = record t { pages_count = u32 (t.pages_count + 1) };
      }

  module _ (store : Mmu → (page_dir addr byte : ℕ) → W → Run W) where
    -- `count` bytes from `start` on, of the function of their index
    unfoldable pub store_bytes : (count i start : ℕ) → (ℕ → ℕ) → Mmu → (page_dir : ℕ) → W → Run W
    store_bytes zero i start bytes mmu page_dir w = ok w
    store_bytes (suc count) i start bytes mmu page_dir w = do
      w1 ← store mmu page_dir (u32 (start + i)) (bytes i) w
      store_bytes count (i + 1) start bytes mmu page_dir w1

    -- memcpy of the segment, or memset when the file has nothing of it
    unfoldable pub fill_segment : (h section start : ℕ) → Loader W → Run (Loader W)
    fill_segment h section start s =
        let m = s.machine.mem in
        let pd = s.task_mem.page_dir in
        let zeros = store_bytes (p_memsz m h) 0 start (λ i. 0) s.machine.mmu pd s.world >>= λ w.
        ok (record s { world = w }) in
        let copied =
          store_bytes (p_filesz m h) 0 start (λ i. m (u32 (section + i))) s.machine.mmu pd s.world
          >>= λ w. ok (record s { world = w }) in
        if p_filesz m h == 0 then zeros else copied

    -- a segment with the header at `h`; without the array of pages the code would write through NULL
    unfoldable pub load_segment : (base h : ℕ) → Loader W → Run (Loader W)
    load_segment base h s =
        let m = s.machine.mem in
        let filled =
          fill_segment h (u32 (base + p_offset m h)) (p_vaddr m h)
            (for_range (pages_for (p_memsz m h)) 0 (add_page h) s) in
        if p_memsz m h == 0 then ok s else if s.task_mem.pages == 0 then fault else filled

    -- The loop compares with `e_phnum` in every round; the loader does not write to the file.
    unfoldable pub load_segments : (count base i : ℕ) → Loader W → Run (Loader W)
    load_segments zero base i s = ok s
    load_segments (suc count) base i s = do
      s1 ← load_segment base (header_at s.machine.mem base i) s
      load_segments count base (i + 1) s1

    -- the task, which runs now
    unfoldable pub start_task : (fuel eflags entry name : ℕ) → Loader W → Run (ℕ × Loader W)
    start_task fuel eflags entry name s = do
      (task, k) ← task_create fuel eflags entry (some s.task_mem) name s.machine
      let t = record (k.tasks.task task) { status = task_running }
      ok (task, record s { machine = record k { tasks = set_task task t k.tasks } })

    unfoldable pub elf_exec : (fuel eflags base name : ℕ) → Machine → W → Run (ℕ × Loader W)
    elf_exec fuel eflags base name s w = do
      (dir, m1, h1) ← create_page_directory fuel s.mmu.kernel_page_directory s.mem s.heap
      (table, m2, h2) ← create_page_table fuel 32 m1 h1
      (pages, h3) ← kmalloc fuel (32 * 4) h2
      let start = new_loader dir table pages m2 h3 s w
      loaded ← load_segments (e_phnum m2 base) base 0 start
      start_task fuel eflags (e_entry s.mem base) name loaded
