-- ===== src/Sched/Life/Tests.antt =====
-- A task is made behind three others in an empty heap, and one of the three is deleted.
use rubi_kernel.Prelude.{◌≡◌, refl, [], ◌∷◌, ok, arith}
use rubi_kernel.Klib.Clist.Tests.{ring-RingAt}
use rubi_kernel.Klib.Clist.Ring.{IsRing}
use rubi_kernel.Memory.Heap.{Kheap, kmalloc, kfree, kfree_from}
use rubi_kernel.Memory.Heap.Tests.{no_blocks, state_of}
use rubi_kernel.Sched.{Tasks}
use rubi_kernel.Sched.Tests.{task_at, three}
use rubi_kernel.Sched.Life.{Machine, task_size, task_kstack_size, task_ustack_size, task_delete}
use rubi_kernel.Sched.Life.Deleted.{task_delete_kernel}
use rubi_kernel.Sched.Switch.Tests.{machine}

abbrev start : Machine
start = record (machine three) { heap = no_blocks }

abbrev heap1 : Kheap
heap1 = state_of (kmalloc 4 task_size no_blocks)

abbrev heap2 : Kheap
heap2 = state_of (kmalloc 4 task_kstack_size heap1)

abbrev heap3 : Kheap
heap3 = state_of (kmalloc 4 task_ustack_size heap2)

-- the kernel task at 20
abbrev kernel_tasks : Tasks
kernel_tasks = record three {
  task = λ a. record (task_at a 1 0) {
    task_mem = record { pages = 0; pages_count = 0; page_dir = 5000; page_table = 6000 };
  };
}

nothing_freed :
    (kfree 1 0 (machine kernel_tasks).heap ≡ ok (machine kernel_tasks).heap)
    × (kfree 1 20 (machine kernel_tasks).heap ≡ ok (machine kernel_tasks).heap)
unfolding kfree kfree_from
nothing_freed = (refl, refl)

task_delete_kernel_example :
    (s' : Machine) × (task_delete 1 20 (machine kernel_tasks) ≡ ok s')
    × IsRing s'.tasks.task_list (10 ∷ 30 ∷ [])
    × (s'.heap ≡ (machine kernel_tasks).heap)
    × ((s'.mmu.directory 5000).present ≡ 0)
task_delete_kernel_example =
    task_delete_kernel 1 20 10 [] (30 ∷ []) (machine kernel_tasks) ring-RingAt (omega arith) refl
      refl refl (omega arith) (machine kernel_tasks).heap (machine kernel_tasks).heap
      (machine kernel_tasks).heap nothing_freed.0 nothing_freed.0 nothing_freed.1
