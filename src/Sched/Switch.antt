-- ===== src/Sched/Switch.antt =====
-- kernel/src/kernel/scheduler/schedule.c: sched_schedule. `ret_addr` is where the processor has put eip, cs
-- and eflags, and `reg_addr` where the handler has put the other registers. switch_kcontext does not return:
-- it is the result `switches`, with the stack and the page directory it is given.
pub mod Saved
pub mod Step
pub mod Reap
pub mod Rotate
pub mod Turn
pub mod RoundRobin
pub mod Tests
use rubi_kernel.Prelude.{
  ℕ, ◌+◌, ◌-◌, ◌*◌, ◌^◌, List, [], ◌∷◌, bit_or, Bool, true, false, not, ◌&&◌, ◌==◌, if◌then◌else◌,
  u16, u32, Run, ok, ◌>>=◌,
}
use rubi_kernel.Klib.Text.{Mem, read32, write32}
use rubi_kernel.Klib.Text.Words.{write_words}
use rubi_kernel.Sched.{
  GpRegisters, OpRegisters, Task, Tasks, task_running, task_killing, task_find_by_status, set_task,
  account, choose_next,
}
use rubi_kernel.Sched.Life.{Machine, task_delete}

abbrev pub read_registers : Mem → ℕ → GpRegisters
read_registers m a = record {
  edi = read32 m a;
  esi = read32 m (a + 4);
  ebp = read32 m (a + 8);
  esp = read32 m (a + 12);
  ebx = read32 m (a + 16);
  edx = read32 m (a + 20);
  ecx = read32 m (a + 24);
  eax = read32 m (a + 28);
}

abbrev pub words_of : GpRegisters → List ℕ
words_of g = g.edi ∷ g.esi ∷ g.ebp ∷ g.esp ∷ g.ebx ∷ g.edx ∷ g.ecx ∷ g.eax ∷ []

-- The state of the interrupted task. The flags are read at `ret_addr + 6`.
unfoldable pub save_task : (ret_addr reg_addr : ℕ) → Mem → Task → Task
save_task ret_addr reg_addr m t = record t {
  op_registers = record t.op_registers {
    eip = read32 m ret_addr;
    cs = m (ret_addr + 4) + m (ret_addr + 5) * 2 ^ 8;
    u_esp = u32 (ret_addr + 12);
  };
  flags = bit_or (read32 m (ret_addr + 6)) 0x200;
  gp_registers = read_registers m reg_addr;
}

-- `u_esp - n`, which wraps
abbrev pub down : ℕ → ℕ → ℕ
down a n = u32 (a + 2 ^ 32 - n)

-- What is pushed on the stack of the task that runs next, for popad and iret: the task and the memory.
unfoldable pub load_task : Task → Mem → Task × Mem
load_task t m =
    let o = t.op_registers in
    let at_flags = down o.u_esp 4 in
    let m1 = write32 m at_flags (bit_or (u16 t.flags) 0x200) in
    let at_cs = down at_flags 4 in
    let m2 = write32 m1 at_cs o.cs in
    let at_eip = down at_cs 4 in
    let m3 = write32 m2 at_eip o.eip in
    let g : GpRegisters = record t.gp_registers { esp = at_eip } in
    let at_regs = down at_eip 32 in
    (
      record t { gp_registers = g; op_registers = record o { u_esp = at_regs } },
      write_words m3 at_regs (words_of g),
    )

-- how sched_schedule ends: it returns to the interrupted code, or leaves by switch_kcontext
pub data Switch : Type 0 where
  returns : Machine → Switch
  switches : (esp cr3 : ℕ) → Machine → Switch

-- The deletion of a killed task: the current one, or the first that is found.
unfoldable pub reap : (fuel : ℕ) → Machine → Run Machine
reap fuel s =
    let t = s.tasks in
    let other = do
      task ← task_find_by_status fuel task_killing t
      if not (task == 0) && ((t.task task).status == task_killing)
          then task_delete fuel task s
          else ok s
    in if t.current_task == 0
      then other
      else if (t.task t.current_task).status == task_killing
      then task_delete fuel t.current_task s
      else other

unfoldable pub resume : (next_task : ℕ) → Machine → Switch
resume next_task s =
    let r = load_task (s.tasks.task next_task) s.mem in
    let o = r.0.op_registers in
    switches o.u_esp o.cr3 (record s {
      mem = r.1;
      tasks = record (set_task next_task r.0 s.tasks) { current_task = next_task };
    })

unfoldable pub switch_to : (fuel next_task : ℕ) → Machine → Run Switch
switch_to fuel next_task s =
    let go = (do s1 ← reap fuel s; ok (resume next_task s1)) in
    if next_task == 0 then ok (returns s) else go

unfoldable pub choose_and_switch : (fuel : ℕ) → Machine → Run Switch
choose_and_switch fuel s = do next_task ← choose_next fuel s.tasks; switch_to fuel next_task s

-- the part of sched_schedule for a current task, behind the accounting
unfoldable pub leave : (fuel ret_addr reg_addr : ℕ) → Bool × Task → Machine → Run Switch
leave fuel ret_addr reg_addr (goes_on, t) s =
    let a = s.tasks.current_task in
    if goes_on
    then ok (returns (record s { tasks = set_task a t s.tasks }))
    else choose_and_switch fuel
        (record s { tasks = set_task a (save_task ret_addr reg_addr s.mem t) s.tasks })

unfoldable pub sched_schedule : (fuel ret_addr reg_addr : ℕ) → Machine → Run Switch
sched_schedule fuel ret_addr reg_addr s =
    let t = s.tasks in
    if t.current_task == 0
    then choose_and_switch fuel s
    else leave fuel ret_addr reg_addr (account (t.task t.current_task)) s
