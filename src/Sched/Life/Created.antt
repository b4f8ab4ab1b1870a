-- ===== src/Sched/Life/Created.antt =====
-- What task_create makes.
use rubi_kernel.Prelude.{
  ℕ, ◌+◌, ◌^◌, ◌<◌, ◌≡◌, ◌≢◌, refl, false, Option, List, [], ◌∷◌, ◌++◌, ◌==◌, ==_refl, u16, u32,
  update, ok, arith,
}
use rubi_kernel.Klib.Text.{strlen}
use rubi_kernel.Klib.Slist.Chain.{has}
use rubi_kernel.Klib.Clist.{queue_push, clist_insert_after}
use rubi_kernel.Klib.Clist.Ring.{IsRing}
use rubi_kernel.Klib.Clist.Append.{queue_push-IsRing}
use rubi_kernel.Memory.Heap.{Kheap, kmalloc}
use rubi_kernel.Sched.{TaskMem, task_uninterruptable}
use rubi_kernel.Sched.Life.{
  Machine, task_size, task_kstack_size, task_ustack_size, new_slot, copy_name, memory_for,
  init_task, add_slot, task_create,
}

-- the state of the task: a new one, that does not run yet
pub record IsNew (s s' : Machine) (given : Option TaskMem) (a start_addr ustack : ℕ) : Type 0 where
  pub tid_eq : (s'.tasks.task a).tid ≡ u16 s.tasks.tid_counter
  pub status_eq : (s'.tasks.task a).status ≡ task_uninterruptable
  pub no_messages : (s'.tasks.task a).msg_count_in ≡ 0
  pub eip_eq : (s'.tasks.task a).op_registers.eip ≡ start_addr
  pub u_esp_eq : (s'.tasks.task a).op_registers.u_esp ≡ u32 (ustack + task_ustack_size)
  pub memory_eq : (s'.tasks.task a).task_mem ≡ memory_for given s.mmu
  pub time_eq : (s'.tasks.task a).time ≡ (new_slot a s.tasks).time
  pub counted : s'.tasks.tid_counter ≡ u32 (s.tasks.tid_counter + 1)
  pub current_eq : s'.tasks.current_task ≡ s.tasks.current_task
  pub others : (z : ℕ) → z ≢ a → s'.tasks.task z ≡ s.tasks.task z

pub task_create-IsRing :
    (fuel eflags start_addr : ℕ) (given : Option TaskMem) (name : ℕ) (s : Machine) (xs : List ℕ)
    (a kstack ustack len : ℕ) (h h1 h2 : Kheap)
    → IsRing s.tasks.task_list xs
    → s.tasks.task_list.slots + 1 < 2 ^ 32
    → kmalloc fuel task_size s.heap ≡ ok (a, h)
    → a ≢ 0
    → has a xs ≡ false
    → kmalloc fuel task_kstack_size h ≡ ok (kstack, h1)
    → kmalloc fuel task_ustack_size h1 ≡ ok (ustack, h2)
    → strlen fuel name s.mem ≡ ok len
    → (s' : Machine) × (task_create fuel eflags start_addr given name s ≡ ok (a, s'))
      × IsRing s'.tasks.task_list (xs ++ (a ∷ []))
      × IsNew s s' given a start_addr ustack
      × (s'.heap ≡ h2)
unfolding task_create add_slot queue_push init_task
task_create-IsRing fuel eflags start_addr given name s xs a kstack ustack len h h1 h2 r room e1 n
      new e2 e3 e4 =
    let real : (a == 0) ≡ false = ground arith in
    let t = s.tasks in
    let slot = new_slot a t in
    let made =
      init_task eflags t.tid_counter kstack ustack start_addr (copy_name len name s.mem slot.name)
        (memory_for given s.mmu) slot in
    let s' : Machine = record s {
      heap = h2;
      tasks = record t {
        task_list = clist_insert_after a t.task_list.tail t.task_list;
        task = update (update t.task a slot) a made;
        tid_counter = u32 (t.tid_counter + 1);
      };
    } in
    (
      s',
      rw (task_create, e1, add_slot, real, e2, e3, e4, ==_refl a) refl,
      queue_push-IsRing a t.task_list xs r new n room,
      record {
        tid_eq = rw (==_refl a) refl;
        status_eq = rw (==_refl a) refl;
        no_messages = rw (==_refl a) refl;
        eip_eq = rw (==_refl a) refl;
        u_esp_eq = rw (==_refl a) refl;
        memory_eq = rw (==_refl a) refl;
        time_eq = rw (==_refl a) refl;
        counted = refl;
        current_eq = refl;
        others = λ z d. let far : (a == z) ≡ false = ground arith in rw far refl;
      },
      refl,
    )
