-- ===== src/Sched/Threads.antt =====
-- kernel/src/kernel/kthread: the kernel's own tasks. kernel_tasks_init makes the task that runs deferred
-- calls; dq_task is an endless loop, and `dq_round` is what it does with one message. A deferred handler is a
-- parameter over the message and the state. `entry` is the address of dq_task, and `name` that of "dq".
use rubi_kernel.Prelude.{
  ℕ, ◌+◌, ◌*◌, ◌^◌, ◌≡◌, refl, none, true, ◌==◌, if◌then◌else◌, Run, ok, fault, ◌>>=◌, arith,
}
use rubi_kernel.Klib.Text.{read32, write32}
use rubi_kernel.Memory.Heap.{Kheap, kmalloc, kfree}
use rubi_kernel.Sched.{Message, task_running, set_task, ksend}
use rubi_kernel.Sched.Life.{Machine, task_create}

-- the array of the kernel's tasks: its size and its address
pub record Ktasks : Type 0 where
  pub ktasks_size : ℕ
  pub ktasks : ℕ

unfoldable pub run_task : (task : ℕ) → Machine → Machine
run_task task s = record s {
  tasks = set_task task (record (s.tasks.task task) { status = task_running }) s.tasks;
}

unfoldable pub kernel_tasks_init : (fuel eflags entry name : ℕ) → Machine → Run (Ktasks × Machine)
kernel_tasks_init fuel eflags entry name s = do
  (ktasks, h) ← kmalloc fuel (1 * 4) s.heap
  (task, s1) ← task_create fuel eflags entry none name (record s { heap = h })
  let s2 = run_task task (record s1 { mem = write32 s1.mem ktasks task })
  if ktasks == 0 then fault else ok (record { ktasks_size = 1; ktasks = ktasks }, s2)

abbrev pub ipc_msg_type_dq_sched : ℕ
ipc_msg_type_dq_sched = 0

abbrev pub ipc_msg_type_dq_test : ℕ
ipc_msg_type_dq_test = 1

-- the answer to a test message: 1337, in a block of its own
unfoldable pub answer_test : (fuel : ℕ) → Message → Machine → Run Machine
answer_test fuel msg s = do
  (data_ptr, h) ← kmalloc fuel 4 s.heap
  let m = write32 s.mem data_ptr 1337
  let answer : Message = record { type = 111; len = 4; data_ptr = data_ptr }
  let ret_tid = s.mem msg.data_ptr + s.mem (msg.data_ptr + 1) * 2 ^ 8
  tasks ← ksend fuel ret_tid answer s.tasks
  if data_ptr == 0 then fault else ok (record s { heap = h; mem = m; tasks = tasks })

-- the switch of dq_task; `call` is the call of a deferred handler by its address, which can change the message
unfoldable pub dq_switch :
    (call : ℕ → Message → Machine → Run (Message × Machine)) (fuel : ℕ)
    → Message
    → Machine
    → Run (Message × Machine)
dq_switch call fuel msg s =
    let answered = (do s1 ← answer_test fuel msg s; ok (msg, s1)) in
    if msg.type == ipc_msg_type_dq_sched
    then call (read32 s.mem msg.data_ptr) msg s
    else if msg.type == ipc_msg_type_dq_test
    then if msg.len == 2 then answered else ok (msg, s)
    else ok (msg, s)

-- one round of dq_task, behind syscall_krecv
unfoldable pub dq_round :
    (call : ℕ → Message → Machine → Run (Message × Machine)) (fuel : ℕ)
    → Message
    → Machine
    → Run Machine
dq_round call fuel msg s = do
  (msg1, s1) ← dq_switch call fuel msg s
  h ← kfree fuel msg1.data_ptr s1.heap
  ok (record s1 { heap = h })

-- When the deferred handler of a message ends and the data of the message that it leaves can be freed, a round
-- of dq_task runs the handler whose address is in the data, once, and frees that data.
pub dq_round_sched :
    (call : ℕ → Message → Machine → Run (Message × Machine)) (fuel : ℕ) (msg left : Message)
    (s t : Machine) (h : Kheap)
    → msg.type ≡ ipc_msg_type_dq_sched
    → call (read32 s.mem msg.data_ptr) msg s ≡ ok (left, t)
    → kfree fuel left.data_ptr t.heap ≡ ok h
    → dq_round call fuel msg s ≡ ok (record t { heap = h })
unfolding dq_round dq_switch
dq_round_sched call fuel msg left s t h e c f =
    let sched : (msg.type == ipc_msg_type_dq_sched) ≡ true = ground arith in
    rw (dq_round, dq_switch, sched, c, f) refl
