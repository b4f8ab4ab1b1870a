-- ===== src/Syscall.antt =====
-- kernel/src/kernel/DT/syscall.c: cint_syscall, over the tasks, the heap and the files. The numbers are in
-- kernel/include/lib/syscall.h. Interrupts are off during the call. A call that gives the processor up ends
-- in `yields`: what happens then is the scheduler's part. The messages that are printed are left out.
pub mod Exit
pub mod Tests
use rubi_kernel.Prelude.{
  ℕ, true, false, Bool, ◌+◌, ◌*◌, ◌^◌, ◌==◌, if◌then◌else◌, Option, none, some, u16, u32, update,
  Run, ok, fault, ◌>>=◌,
}
use rubi_kernel.Klib.Text.{Mem, read32, write32}
use rubi_kernel.Sched.{
  Message, Task, Tasks, set_task, task_killing, mark_reschedule, ksend, krecive_wait, krecive_take,
}
use rubi_kernel.Memory.Heap.{Kheap, kmalloc, kfree}
use rubi_kernel.Vfs.{Dirent, Vfs}
use rubi_kernel.Vfs.Files.{file_open, file_read, file_write, file_ioctl}

abbrev pub syscall_exit : ℕ
syscall_exit = 0x1

abbrev pub syscall_ksend : ℕ
syscall_ksend = 0x2

abbrev pub syscall_krecv : ℕ
syscall_krecv = 0x3

abbrev pub syscall_gettid : ℕ
syscall_gettid = 0x4

abbrev pub syscall_open : ℕ
syscall_open = 0x5

abbrev pub syscall_close : ℕ
syscall_close = 0x6

abbrev pub syscall_read : ℕ
syscall_read = 0x7

abbrev pub syscall_write : ℕ
syscall_write = 0x8

abbrev pub syscall_ioctl : ℕ
syscall_ioctl = 0x9

abbrev pub syscall_malloc : ℕ
syscall_malloc = 0xA

abbrev pub syscall_free : ℕ
syscall_free = 0xB

abbrev pub syscall_test : ℕ
syscall_test = 0x1337

-- the registers that a call uses
pub record Regs : Type 0 where
  pub eax : ℕ
  pub ebx : ℕ
  pub ecx : ℕ
  pub edx : ℕ

pub record System (W : Type 0) : Type 0 where
  pub tasks : Tasks
  pub heap : Kheap
  pub vfs : Vfs W

-- how a call ends
pub data Call (W : Type 0) : Type 0 where
  returns : (ret : ℕ) → System W → Call W
  yields : System W → Call W

-- a struct message_t in memory: a byte, and behind three bytes of padding two words
abbrev pub message_at : Mem → ℕ → Message
message_at m a = record { type = m a; len = read32 m (a + 4); data_ptr = read32 m (a + 8) }

abbrev pub put_message : Mem → ℕ → Message → Mem
put_message m a msg = write32 (write32 (update m a msg.type) (a + 4) msg.len) (a + 8) msg.data_ptr

-- the state of the tasks when the current one is killed and gives the processor up
abbrev pub kill_current : Tasks → Tasks
kill_current t =
    mark_reschedule
      (set_task t.current_task (record (t.task t.current_task) { status = task_killing }) t)

module _ {W : Type 0} where
  -- krecive behind the test for a message: it is copied to `a`. With none the code would wait.
  unfoldable pub receive : (a : ℕ) → Option (Message × Tasks) → System W → Call W
  receive a none s = yields (record s { tasks = mark_reschedule (krecive_wait s.tasks).1 })
  receive a (some (msg, tasks)) s =
      returns 0
        (record s { tasks = tasks; vfs = record s.vfs { mem = put_message s.vfs.mem a msg } })

  -- the state after a call of a component, and the value that the system call returns
  unfoldable pub on_tasks : Run Tasks → System W → Run (Call W)
  on_tasks run s = do tasks ← run; ok (returns 0 (record s { tasks = tasks }))

  unfoldable pub on_files : Run (ℕ × Vfs W) → System W → Run (Call W)
  on_files run s = do (ret, v) ← run; ok (returns ret (record s { vfs = v }))

  unfoldable pub on_malloc : Run (ℕ × Kheap) → System W → Run (Call W)
  on_malloc run s = do (ret, h) ← run; ok (returns ret (record s { heap = h }))

  unfoldable pub on_free : Run Kheap → System W → Run (Call W)
  on_free run s = do h ← run; ok (returns 0 (record s { heap = h }))

  -- `part` and `dirent` are the arrays that resolve_path does not initialise. A system call is made by a
  -- task, so there is a current one; without, three of the calls would read through NULL.
  unfoldable pub cint_syscall :
      (fuel : ℕ) → Regs → (part : ℕ → ℕ) → Dirent → System W → Run (Call W)
  cint_syscall fuel r part dirent s =
      let t = s.tasks.current_task in
      let none_runs = t == 0 in
      if r.eax == syscall_exit
      then if none_runs then fault else ok (yields (record s { tasks = kill_current s.tasks }))
      else if r.eax == syscall_ksend
      then on_tasks (ksend fuel (u16 r.ebx) (message_at s.vfs.mem r.ecx) s.tasks) s
      else if r.eax == syscall_krecv
      then if none_runs then fault else ok (receive r.ebx (krecive_take s.tasks) s)
      else if r.eax == syscall_gettid
      then if none_runs then fault else ok (returns (s.tasks.task t).tid s)
      else if r.eax == syscall_open
      then on_files (file_open fuel r.ebx (u16 r.ecx) part dirent s.vfs) s
      else if r.eax == syscall_close
      then ok (returns 0 s)
      else if r.eax == syscall_read
      then on_files (file_read fuel r.ebx r.ecx r.edx s.vfs) s
      else if r.eax == syscall_write
      then on_files (file_write fuel r.ebx r.ecx r.edx s.vfs) s
      else if r.eax == syscall_ioctl
      then on_files (file_ioctl fuel r.ebx r.ecx r.edx s.vfs) s
      else if r.eax == syscall_malloc
      then on_malloc (kmalloc fuel r.ebx s.heap) s
      else if r.eax == syscall_free
      then on_free (kfree fuel r.ebx s.heap) s
      else if r.eax == syscall_test
      then ok (returns (u32 (r.ebx + r.ecx)) s)
      else ok (returns 0 s)
