-- ===== src/Sched/Life.antt =====
-- kernel/src/kernel/scheduler/task.c: the creation and the deletion of a task. What get_eflags returns is a
-- parameter. What is printed is left out.
pub mod Created
pub mod Deleted
pub mod Tests
use rubi_kernel.Prelude.{
  ℕ, ◌+◌, ◌-◌, ◌*◌, ◌^◌, bit_or, Bool, true, false, ◌||◌, Option, none, some, ltb, ◌==◌,
  if◌then◌else◌, u16, u32, update, for_range, Run, ok, fault, ◌>>=◌,
}
use rubi_kernel.Klib.Text.{Mem, read32, strlen}
use rubi_kernel.Klib.Clist.{Clist, clist_insert_after, clist_delete}
use rubi_kernel.Memory.Layout.{phys}
use rubi_kernel.Memory.Heap.{Kheap, kmalloc, kfree}
use rubi_kernel.Memory.Mmu.{Mmu, simple_page_bitmap_callback, unbind_page, unbind_table}
use rubi_kernel.Memory.Tables.{free_page_directory, free_page_table}
use rubi_kernel.DescriptorTables.Idt.{gdt_kcode_selector}
use rubi_kernel.Sched.{
  Message, GpRegisters, OpRegisters, TaskMem, Task, Tasks, task_uninterruptable, set_task,
}

-- the size of struct task_t, which is packed and aligned to 4
abbrev pub task_size : ℕ
task_size = 236

abbrev pub task_kstack_size : ℕ
task_kstack_size = 1024

abbrev pub task_ustack_size : ℕ
task_ustack_size = 4096 - 1024

abbrev pub gdt_kdata_selector : ℕ
gdt_kdata_selector = 0x10

abbrev pub gdt_kstack_selector : ℕ
gdt_kstack_selector = 0x18

-- what the scheduler works on
pub record Machine : Type 0 where
  pub tasks : Tasks
  pub heap : Kheap
  pub mem : Mem
  pub mmu : Mmu

abbrev pub zero_registers : GpRegisters
zero_registers = record { edi = 0; esi = 0; ebp = 0; esp = 0; ebx = 0; edx = 0; ecx = 0; eax = 0 }

abbrev pub zero_task : Task
zero_task = record {
  tid = 0;
  name = λ i. 0;
  gp_registers = zero_registers;
  op_registers = record { eip = 0; cr3 = 0; k_esp = 0; u_esp = 0; cs = 0; ds = 0; ss = 0 };
  flags = 0;
  time = 0;
  reschedule = 0;
  status = 0;
  kstack = 0;
  ustack = 0;
  task_mem = record { pages = 0; pages_count = 0; page_dir = 0; page_table = 0 };
  msg_count_in = 0;
  msg_buff = λ i. record { type = 0; len = 0; data_ptr = 0 };
  fd_table = record {
    slots = 0;
    head = 0;
    tail = 0;
    node = λ a. record { next = 0; data_ptr = 0 };
  };
  pwd = 0;
  root = 0;
  next_fd = 0;
}

-- The contents of a new slot: clist_init clears the first one, and no other is cleared.
unfoldable pub new_slot : (fresh : ℕ) → Tasks → Task
new_slot fresh s =
    let l = s.task_list in if (l.tail == 0) || (l.slots == 0) then zero_task else s.task fresh

-- strncpy of at most 7 characters into `task->name`
unfoldable pub copy_name : (len name : ℕ) → Mem → (ℕ → ℕ) → ℕ → ℕ
copy_name len name m old =
    let rounds = if ltb len 7 then len else 7 in
    update (for_range rounds 0 (λ i n. update n i (m (name + i))) old) rounds 0

-- the given memory, or the kernel's own
unfoldable pub memory_for : Option TaskMem → Mmu → TaskMem
memory_for none k = record {
  pages = 0;
  pages_count = 0;
  page_dir = k.kernel_page_directory;
  page_table = k.kernel_page_table;
}
memory_for (some given) k = given

-- the assignments of task_create to the task in the slot
unfoldable pub init_task :
    (eflags tid kstack ustack start_addr : ℕ) → (name : ℕ → ℕ) → TaskMem → Task → Task
init_task eflags tid kstack ustack start_addr name given t = record t {
  kstack = kstack;
  ustack = ustack;
  tid = u16 tid;
  name = name;
  status = task_uninterruptable;
  msg_count_in = 0;
  next_fd = 0;
  fd_table = record t.fd_table { slots = 0; head = 0 };
  pwd = 0;
  root = 0;
  task_mem = given;
  flags = bit_or eflags 0x200;
  gp_registers = zero_registers;
  op_registers = record {
    eip = start_addr;
    cr3 = phys given.page_dir;
    k_esp = u32 (kstack + task_kstack_size);
    u_esp = u32 (ustack + task_ustack_size);
    cs = gdt_kcode_selector;
    ds = gdt_kdata_selector;
    ss = gdt_kstack_selector;
  };
}

-- the element of the list, without which the code would write through NULL
unfoldable pub add_slot : (entry : ℕ) → Kheap → Machine → Run Machine
add_slot entry h s =
    let t = s.tasks in
    let slot = new_slot entry t in
    if entry == 0
    then fault
    else ok (record s {
      heap = h;
      tasks = record t {
        task_list = clist_insert_after entry t.task_list.tail t.task_list;
        task = update t.task entry slot;
      };
    })

-- The address of the task, and the state.
unfoldable pub task_create :
    (fuel eflags start_addr : ℕ) → Option TaskMem → (name : ℕ) → Machine → Run (ℕ × Machine)
task_create fuel eflags start_addr task_mem name s = do
  (entry, h) ← kmalloc fuel task_size s.heap
  s1 ← add_slot entry h s
  (kstack, h1) ← kmalloc fuel task_kstack_size s1.heap
  (ustack, h2) ← kmalloc fuel task_ustack_size h1
  len ← strlen fuel name s.mem
  let old = s1.tasks.task entry
  let t =
      init_task eflags s1.tasks.tid_counter kstack ustack start_addr
        (copy_name len name s.mem old.name) (memory_for task_mem s.mmu) old
  let tasks = record (set_task entry t s1.tasks) { tid_counter = u32 (s1.tasks.tid_counter + 1) }
  ok (entry, record s1 { heap = h2; tasks = tasks })

-- `unbind_page` of every page of the task, and the array of the pages is freed
unfoldable pub free_pages : (fuel : ℕ) → TaskMem → Machine → Run Machine
free_pages fuel t s =
    let mmu =
      for_range t.pages_count 0
        (λ i k.
          unbind_page t.page_table (read32 s.mem (t.pages + 4 * i)) simple_page_bitmap_callback k)
        s.mmu in
    let freed = (do h ← kfree fuel t.pages s.heap; ok (record s { heap = h; mmu = mmu })) in
    if t.pages_count == 0 then ok s else freed

-- the element of the list and its slot
unfoldable pub drop_slot : (fuel task : ℕ) → Machine → Run Machine
drop_slot fuel task s = do
  h ← kfree fuel task s.heap
  ok (record s {
    heap = h;
    tasks = record s.tasks { task_list = clist_delete task s.tasks.task_list };
  })

unfoldable pub delete_task : (fuel task : ℕ) → Machine → Run Machine
delete_task fuel task s =
    let t = s.tasks.task task in
    do
      h ← kfree fuel t.kstack s.heap
      h1 ← kfree fuel t.ustack h
      s1 ← free_pages fuel t.task_mem (record s {
        heap = h1;
        tasks = set_task task (record t { kstack = 0; ustack = 0 }) s.tasks;
      })
      let mmu = unbind_table t.task_mem.page_dir 0x0 s1.mmu
      h2 ← free_page_table fuel mmu.kernel_page_table t.task_mem.page_table s1.mem s1.heap
      h3 ← free_page_directory fuel mmu.kernel_page_directory t.task_mem.page_dir s1.mem h2
      drop_slot fuel task (record s1 { heap = h3; mmu = mmu })

unfoldable pub task_delete : (fuel task : ℕ) → Machine → Run Machine
task_delete fuel task s = if task == 0 then ok s else delete_task fuel task s
