-- ===== src/Sched.antt =====
-- kernel/src/kernel/scheduler: the search for a task, the messages between tasks, and the time quota.
-- A task is found by its address, NULL is 0, and task_list is a circular list. A dereference of NULL is
-- `fault`. The assertions only print. The searches run on fuel.
pub mod Search
pub mod Messages
pub mod Life
pub mod Switch
pub mod Threads
pub mod Tests
use rubi_kernel.Klib.Clist.{ClistNode, Clist}
use rubi_kernel.Prelude.{
  ℕ, zero, suc, ◌+◌, ◌-◌, ◌<◌, Bool, true, false, ◌&&◌, ◌||◌, Option, none, some, ltb, ◌==◌,
  if◌then◌else◌, u32, update, Run, ok, fault, out_of_fuel, ◌>>=◌,
}

abbrev pub task_uninterruptable : ℕ
task_uninterruptable = 0

abbrev pub task_running : ℕ
task_running = 1

abbrev pub task_killing : ℕ
task_killing = 2

abbrev pub task_interruptable : ℕ
task_interruptable = 3

abbrev pub task_quota : ℕ
task_quota = 3

abbrev pub task_msg_buff_size : ℕ
task_msg_buff_size = 8

pub record Message : Type 0 where
  pub type : ℕ
  pub len : ℕ
  pub data_ptr : ℕ

pub record GpRegisters : Type 0 where
  pub edi : ℕ
  pub esi : ℕ
  pub ebp : ℕ
  pub esp : ℕ
  pub ebx : ℕ
  pub edx : ℕ
  pub ecx : ℕ
  pub eax : ℕ

pub record OpRegisters : Type 0 where
  pub eip : ℕ
  pub cr3 : ℕ
  pub k_esp : ℕ
  pub u_esp : ℕ
  pub cs : ℕ
  pub ds : ℕ
  pub ss : ℕ

pub record TaskMem : Type 0 where
  pub pages : ℕ
  pub pages_count : ℕ
  pub page_dir : ℕ
  pub page_table : ℕ

-- struct task_t without its list_head, which is the element of task_list at the task's address
pub record Task : Type 0 where
  pub tid : ℕ
  pub name : ℕ → ℕ
  pub gp_registers : GpRegisters
  pub op_registers : OpRegisters
  pub flags : ℕ
  pub time : ℕ
  pub reschedule : ℕ
  pub status : ℕ
  pub kstack : ℕ
  pub ustack : ℕ
  pub task_mem : TaskMem
  pub msg_count_in : ℕ
  pub msg_buff : ℕ → Message
  pub fd_table : Clist
  pub pwd : ℕ
  pub root : ℕ
  pub next_fd : ℕ

-- the globals of task.c, and the tasks by address
pub record Tasks : Type 0 where
  pub task_list : Clist
  pub task : ℕ → Task
  pub current_task : ℕ
  pub tid_counter : ℕ

-- `work->list_head.next->data`
abbrev pub after : (ℕ → ClistNode) → ℕ → ℕ
after node work = (node (node work).next).data_ptr

-- The do-while loop of both searches: from `work` on, until `stop` or NULL is next.
unfoldable pub find_from : ℕ → (ℕ → Bool) → (stop work : ℕ) → (ℕ → ClistNode) → Run ℕ
find_from zero test stop work node = out_of_fuel
find_from (suc fuel) test stop work node =
    let w = after node work in
    let rest = find_from fuel test stop w node in
    if work == 0
    then fault
    else if test work
    then ok work
    else if (node work).next == 0
    then fault
    else if (w == stop) || (w == 0)
    then ok 0
    else rest

abbrev pub has_status : ℕ → Tasks → ℕ → Bool
has_status status s a = (s.task a).status == status

unfoldable pub task_find_by_status_from : (fuel start status : ℕ) → Tasks → Run ℕ
task_find_by_status_from fuel start status s =
    let node = s.task_list.node in
    if start == 0
    then ok 0
    else if (node start).next == 0
    then fault
    else find_from fuel (has_status status s) start (after node start) node

unfoldable pub task_find_by_status : (fuel status : ℕ) → Tasks → Run ℕ
task_find_by_status fuel status s =
    let l = s.task_list in
    if l.head == 0 then ok 0 else task_find_by_status_from fuel (l.node l.head).data_ptr status s

unfoldable pub task_find_by_id : (fuel tid : ℕ) → Tasks → Run ℕ
task_find_by_id fuel tid s =
    let l = s.task_list in
    if l.head == 0
    then fault
    else let first = (l.node l.head).data_ptr in
      find_from fuel (λ a. (s.task a).tid == tid) first first l.node

abbrev pub set_task : ℕ → Task → Tasks → Tasks
set_task a t s = record s { task = update s.task a t }

-- the copy, the count and the wake-up
unfoldable pub deliver : Message → Task → Task
deliver msg t =
    let t1 = record t {
      msg_buff = update t.msg_buff t.msg_count_in msg;
      msg_count_in = t.msg_count_in + 1;
    } in
    if t1.status == task_interruptable then record t1 { status = task_running } else t1

unfoldable pub send_to : (a : ℕ) → Message → Tasks → Tasks
send_to a msg s =
    if (a == 0) || ((s.task a).msg_count_in == task_msg_buff_size)
    then s
    else set_task a (deliver msg (s.task a)) s

unfoldable pub ksend : (fuel tid : ℕ) → Message → Tasks → Run Tasks
ksend fuel tid msg s = do a ← task_find_by_id fuel tid s; ok (send_to a msg s)

-- krecive up to sched_yield: whether it yields, and the state
unfoldable pub krecive_wait : Tasks → Bool × Tasks
krecive_wait s =
    let t = s.task s.current_task in
    let empty = t.msg_count_in == 0 in
    (
      empty,
      if empty then set_task s.current_task (record t { status = task_interruptable }) s else s,
    )

-- krecive once the task runs again: the last message. With none it would read before the buffer.
unfoldable pub krecive_take : Tasks → Option (Message × Tasks)
krecive_take s =
    let t = s.task s.current_task in
    let left = record t { msg_count_in = t.msg_count_in - 1 } in
    if t.msg_count_in == 0
    then none
    else some (t.msg_buff (t.msg_count_in - 1), set_task s.current_task left s)

-- the accounting of sched_schedule for a current task: whether it goes on
unfoldable pub account : Task → Bool × Task
account t =
    let t1 = record t { time = u32 (t.time + 1) } in
    if ltb t1.time task_quota && (t1.reschedule == 0)
    then (true, t1)
    else (false, record t1 { time = 0; reschedule = 0 })

-- sched_yield sets the flag before it raises the timer interrupt
unfoldable pub mark_reschedule : Tasks → Tasks
mark_reschedule s =
    if s.current_task == 0
    then s
    else set_task s.current_task (record (s.task s.current_task) { reschedule = 1 }) s

-- the task that sched_schedule switches to, NULL for none
unfoldable pub choose_next : (fuel : ℕ) → Tasks → Run ℕ
choose_next fuel s =
    if s.current_task == 0
    then task_find_by_status fuel task_running s
    else task_find_by_status_from fuel s.current_task task_running s
