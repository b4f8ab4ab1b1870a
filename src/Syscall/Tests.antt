-- ===== src/Syscall/Tests.antt =====
-- Two tasks, at 10 and 20, both running; the one at 10 calls.
use rubi_kernel.Prelude.{ℕ, ◌≡◌, ◌≢◌, refl, [], arith, ◌==◌, if◌then◌else◌, ok}
use rubi_kernel.Sched.Tests.{no_list, task_at}
use rubi_kernel.Klib.Slist.{zero_node}
use rubi_kernel.Sched.{Tasks, find_from, task_find_by_status_from, choose_next, mark_reschedule}
use rubi_kernel.Memory.Heap.{no_entry}
use rubi_kernel.Vfs.{no_ops, Dirent, no_file_ops}
use rubi_kernel.Syscall.{
  System, returns, yields, syscall_exit, syscall_test, kill_current, cint_syscall,
}
use rubi_kernel.Syscall.Exit.{exit_chooses_other}

abbrev two_tasks : Tasks
two_tasks = record {
  task_list = record {
    slots = 2;
    head = 10;
    tail = 20;
    node = λ a.
        if a == 10
        then record { next = 20; data_ptr = 10 }
        else record { next = 10; data_ptr = 20 };
  };
  task = λ a. task_at a 1 0;
  current_task = 10;
  tid_counter = 2;
}

abbrev system : System ℕ
system = record {
  tasks = two_tasks;
  heap = record {
    base = 100;
    slots = 1;
    slot_size = 20;
    head = 0;
    tail = 0;
    node = λ a. zero_node;
    payload = λ a. no_entry;
  };
  vfs = record {
    mem = λ a. 0;
    fresh = [];
    world = 0;
    ird_head = 0;
    ird_root = 0;
    nodes_list = no_list;
    node = λ a. record { name = λ i. 0; flags = 0; length = 0; inode = 0; impl = 0; ops = no_ops };
    dev_list = no_list;
    dev = λ a. record {
      name = λ i. 0;
      read_fn = λ buf offset size m w. (0, offset, m, w);
      write_fn = λ buf offset size m w. (0, offset, m, w);
      cmd_fn = λ command subcmd w. w;
    };
    fd_table = no_list;
    next_fd = 0;
    file = λ a. record { pos = 0; node = 0; mode = 0; fd = 0; private_data = 0; ops = no_file_ops };
  };
}

abbrev nothing_read : Dirent
nothing_read = record { name = λ i. 0; ino = 0 }

abbrev other : ℕ
other = 20

other_task : choose_next 3 (kill_current two_tasks) ≡ ok other
unfolding choose_next task_find_by_status_from find_from mark_reschedule
other_task = refl

exit_chooses_other_example :
    (cint_syscall 9
        (record { eax = syscall_exit; ebx = 0; ecx = 0; edx = 0 })
        (λ i. 0)
        nothing_read
        system
      ≡ ok (yields (record system { tasks = kill_current two_tasks })))
    × (other ≢ 10)
exit_chooses_other_example =
    exit_chooses_other 9 3 other (record { eax = syscall_exit; ebx = 0; ecx = 0; edx = 0 }) (λ i. 0)
      nothing_read system refl (omega arith) other_task (omega arith)

sum_of_two :
    cint_syscall 0
      (record { eax = syscall_test; ebx = 3; ecx = 4; edx = 0 })
      (λ i. 0)
      nothing_read
      system
    ≡ ok (returns 7 system)
unfolding cint_syscall
sum_of_two = refl
