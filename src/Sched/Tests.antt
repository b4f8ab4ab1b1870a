-- ===== src/Sched/Tests.antt =====
-- Three tasks at 10, 20 and 30 in a ring; the one at 10 is the head and runs.
use rubi_kernel.Prelude.{ℕ, ◌≡◌, ◌≢◌, some, arith, ◌==◌, if◌then◌else◌}
use rubi_kernel.Klib.Clist.{Clist}
use rubi_kernel.Klib.Clist.Tests.{ring}
use rubi_kernel.Sched.{
  Message, GpRegisters, OpRegisters, Task, Tasks, task_interruptable, send_to, krecive_take,
}
use rubi_kernel.Sched.Messages.{InPool, take-send}

abbrev pub no_message : Message
no_message = record { type = 0; len = 0; data_ptr = 0 }

abbrev pub no_list : Clist
no_list = record { slots = 0; head = 0; tail = 0; node = λ a. record { next = 0; data_ptr = 0 } }

abbrev pub no_registers : GpRegisters
no_registers = record { edi = 0; esi = 0; ebp = 0; esp = 0; ebx = 0; edx = 0; ecx = 0; eax = 0 }

abbrev pub no_op_registers : OpRegisters
no_op_registers = record { eip = 0; cr3 = 0; k_esp = 0; u_esp = 1000; cs = 8; ds = 0; ss = 0 }

abbrev pub task_at : (tid status count : ℕ) → Task
task_at tid status count = record {
  tid = tid;
  name = λ i. 0;
  gp_registers = no_registers;
  op_registers = no_op_registers;
  flags = 0;
  time = 0;
  reschedule = 0;
  status = status;
  kstack = 0;
  ustack = 0;
  task_mem = record { pages = 0; pages_count = 0; page_dir = 0; page_table = 0 };
  msg_count_in = count;
  msg_buff = λ i. no_message;
  fd_table = no_list;
  pwd = 0;
  root = 0;
  next_fd = 0;
}

abbrev pub three : Tasks
three = record {
  task_list = ring;
  task = λ a. if a == 10 then task_at 0 1 0 else if a == 20 then task_at 1 3 8 else task_at 2 1 0;
  current_task = 10;
  tid_counter = 3;
}

abbrev hello : Message
hello = record { type = 1; len = 4; data_ptr = 500 }

three-InPool : InPool three
three-InPool a = ground arith

take-send_example :
    (s' : Tasks) × (krecive_take (send_to 10 hello three) ≡ some (hello, s'))
    × ((s'.task 10).msg_count_in ≡ 0)
    × ((s'.task 10).status ≢ task_interruptable)
take-send_example = take-send hello three (λ e. omega arith) (λ e. omega arith)
