-- ===== src/Sched/Switch/Tests.antt =====
-- Three tasks at 10, 20 and 30 in a ring; the one at 10 runs, and the one at 20 waits.
use rubi_kernel.Prelude.{ℕ, ◌%◌, ◌^◌, ◌≡◌, refl, [], ◌∷◌, ◌==◌, ==_iff, if◌then◌else◌, ok, arith}
use rubi_kernel.Klib.Text.{Mem, read32}
use rubi_kernel.Klib.Slist.{zero_node}
use rubi_kernel.Klib.Clist.Tests.{ring, ring-RingAt}
use rubi_kernel.Memory.Heap.{no_entry}
use rubi_kernel.Sched.{Tasks, account}
use rubi_kernel.Sched.Search.{cycle_of}
use rubi_kernel.Sched.Tests.{task_at, three}
use rubi_kernel.Sched.Life.{Machine}
use rubi_kernel.Sched.Switch.{read_registers, save_task, load_task, sched_schedule, returns}
use rubi_kernel.Sched.Switch.Saved.{load-save, flags_lost}
use rubi_kernel.Sched.Switch.Reap.{killed_runs_on}
use rubi_kernel.Sched.Switch.Turn.{Tick, Gets, at_tick, left}
use rubi_kernel.Sched.Switch.RoundRobin.{round_robin}

abbrev pub machine : Tasks → Machine
machine t = record {
  tasks = t;
  heap = record {
    base = 100;
    slots = 1;
    slot_size = 20;
    head = 0;
    tail = 0;
    node = λ a. zero_node;
    payload = λ a. no_entry;
  };
  mem = λ a. 0;
  mmu = record {
    extended = λ i. 0;
    pages = λ i. 0;
    kernel_pages_operations = 0;
    directory = λ a. record {
      present = 0;
      read_write = 0;
      user_supervisor = 0;
      write_through = 0;
      cache_disabled = 0;
      accessed = 0;
      zero_bit = 0;
      page_size_bit = 0;
      ignored = 0;
      available = 0;
      page_table_addr = 0;
    };
    table = λ a. record {
      present = 0;
      read_write = 0;
      user_supervisor = 0;
      write_through = 0;
      cache_disabled = 0;
      accessed = 0;
      dirty = 0;
      zero_bit = 0;
      global = 0;
      available = 0;
      page_phys_addr = 0;
    };
    kernel_page_directory = 5000;
    kernel_page_table = 6000;
    log = [];
  };
}

abbrev ones : Mem
ones a = 1

abbrev zeros : Mem
zeros a = 0

load-save_example :
    let r = load_task (save_task 532 500 ones (task_at 0 1 0)) zeros in
    (r.0.op_registers.u_esp ≡ 500)
    × (read_registers r.1 500 ≡ record (read_registers ones 500) { esp = 532 })
    × (read32 r.1 532 ≡ read32 ones 532)
    × (read32 r.1 536 ≡ read32 ones 536 % 2 ^ 16)
load-save_example = load-save 500 ones zeros (task_at 0 1 0) (λ a. omega arith) (omega arith)

-- eflags with carry and overflow set
abbrev with_carry : Mem
with_carry a = if a == 540 then 1 else if a == 541 then 8 else 0

flags_lost_example :
    read32 (load_task (save_task 532 500 with_carry (task_at 0 1 0)) zeros).1 540 ≡ 0x200
flags_lost_example = flags_lost 500 with_carry zeros (task_at 0 1 0) (omega arith) refl refl

abbrev still : ℕ → Tick
still n = record { ret_addr = 532; reg_addr = 500; mem = zeros }

round_robin_example : Gets 4 still 30 10 (machine three)
round_robin_example =
    round_robin 4 still 10 (20 ∷ 30 ∷ []) 30 (machine three) ring-RingAt refl (λ z h. ground arith)
      (λ z h. ground arith) refl refl (omega arith)

-- the head at 10 is killed, and the task at 20 runs
abbrev head_killed : Tasks
head_killed = record {
  task_list = ring;
  task = λ a. if a == 10 then task_at 0 2 0 else task_at a 1 0;
  current_task = 20;
  tid_counter = 3;
}

-- the task at 10 has called exit, and the others wait
abbrev all_wait : Tasks
all_wait = record {
  task_list = ring;
  task = λ a. if a == 10 then record (task_at 0 2 0) { reschedule = 1 } else task_at a 3 0;
  current_task = 10;
  tid_counter = 3;
}

killed_runs_on_example :
    sched_schedule 3 532 500 (at_tick (still 0) (machine all_wait))
    ≡ ok (returns (left (still 0) (machine all_wait)))
unfolding account
killed_runs_on_example =
    killed_runs_on 3 (still 0) (20 ∷ 30 ∷ []) (machine all_wait) (λ e. omega arith)
      (cycle_of ring 10 (20 ∷ 30 ∷ []) ring-RingAt) (omega arith) refl refl
      (λ z h. ground (arith, ==_iff z 20, ==_iff z 30))
