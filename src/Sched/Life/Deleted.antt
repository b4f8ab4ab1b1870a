-- ===== src/Sched/Life/Deleted.antt =====
-- What task_delete leaves.
use rubi_kernel.Prelude.{
  ℕ, ◌+◌, ◌^◌, ◌<◌, ◌≡◌, ◌≢◌, refl, sym, ◌∙◌, subst, true, false, List, ◌∷◌, ◌++◌, ◌==◌, ==_iff,
  ==_refl, ok, leb, ◌&&◌, arith,
}
use rubi_kernel.Klib.Text.{Mem}
use rubi_kernel.Klib.Slist.Chain.{has-append}
use rubi_kernel.Klib.Clist.{clist_delete}
use rubi_kernel.Klib.Clist.Ring.{RingAt, IsRing}
use rubi_kernel.Klib.Clist.Remove.{clist_delete-IsRing}
use rubi_kernel.Memory.Heap.{Kheap, kfree}
use rubi_kernel.Memory.Mmu.{Mmu, pde_at, unbind_table}
use rubi_kernel.Memory.Tables.{kernel_tables_end, free_page_directory, free_page_table}
use rubi_kernel.Sched.{set_task}
use rubi_kernel.Sched.Life.{Machine, free_pages, drop_slot, delete_task, task_delete}

unbind_first :
    (pd : ℕ) (k : Mmu)
    → (((unbind_table pd 0x0 k).directory pd).present ≡ 0)
      × ((unbind_table pd 0x0 k).kernel_page_directory ≡ k.kernel_page_directory)
      × ((unbind_table pd 0x0 k).kernel_page_table ≡ k.kernel_page_table)
unfolding unbind_table
unbind_first pd k =
    let here : pde_at pd 0 ≡ pd = omega arith in rw (here, ==_refl pd) (refl, refl, refl)

directory_kept :
    (fuel kpd pd : ℕ) (m : Mem) (h : Kheap) → pd ≡ kpd → free_page_directory fuel kpd pd m h ≡ ok h
unfolding free_page_directory
directory_kept fuel kpd pd m h e = let same : (pd == kpd) ≡ true = ground arith in rw same refl

table_kept :
    (fuel kpt pt : ℕ) (m : Mem) (h : Kheap)
    → pt ≡ kpt
    → kpt + 2 ^ 27 < 2 ^ 32
    → free_page_table fuel kpt pt m h ≡ ok h
unfolding free_page_table
table_kept fuel kpt pt m h e room =
    let kernels : (leb kpt pt && leb pt (kernel_tables_end kpt)) ≡ true = ground arith in
    rw kernels refl

module _ (fuel pos x : ℕ) (us ys : List ℕ) (s : Machine)
    (r : RingAt s.tasks.task_list x (us ++ (pos ∷ ys))) (room : s.tasks.task_list.slots < 2 ^ 32)
    (kernel_dir : (s.tasks.task pos).task_mem.page_dir ≡ s.mmu.kernel_page_directory)
    (kernel_table : (s.tasks.task pos).task_mem.page_table ≡ s.mmu.kernel_page_table)
    (no_pages : (s.tasks.task pos).task_mem.pages_count ≡ 0)
    (low_table : s.mmu.kernel_page_table + 2 ^ 27 < 2 ^ 32) (h1 h2 h3 : Kheap)
    (e1 : kfree fuel (s.tasks.task pos).kstack s.heap ≡ ok h1)
    (e2 : kfree fuel (s.tasks.task pos).ustack h1 ≡ ok h2) (e3 : kfree fuel pos h2 ≡ ok h3) where
  -- A task behind the head, which has the kernel's own memory and no pages, when each kfree ends:
  -- `task_delete` takes it out of the ring and frees its two stacks and its slot. The first entry of the
  -- kernel's page directory is not present any more.
  pub task_delete_kernel :
      (s' : Machine) × (task_delete fuel pos s ≡ ok s')
      × IsRing s'.tasks.task_list (x ∷ (us ++ ys))
      × (s'.heap ≡ h3)
      × ((s'.mmu.directory s.mmu.kernel_page_directory).present ≡ 0)
  unfolding task_delete delete_task free_pages drop_slot
  task_delete_kernel =
      let t = s.tasks.task pos in
      let pd = t.task_mem.page_dir in
      let k = unbind_table pd 0x0 s.mmu in
      let kept = unbind_first pd s.mmu in
      let real : (pos == 0) ≡ false = ground (arith, pos_real) in
      let none : (t.task_mem.pages_count == 0) ≡ true = ground arith in
      let tables : free_page_table fuel k.kernel_page_table t.task_mem.page_table s.mem h2 ≡ ok h2 =
        table_kept fuel k.kernel_page_table t.task_mem.page_table s.mem h2
          (kernel_table ∙ sym kept.2) (rw kept.2 low_table) in
      let directory : free_page_directory fuel k.kernel_page_directory pd s.mem h2 ≡ ok h2 =
        directory_kept fuel k.kernel_page_directory pd s.mem h2 (kernel_dir ∙ sym kept.1) in
      let s' : Machine = record s {
        heap = h3;
        mmu = k;
        tasks = record (set_task pos (record t { kstack = 0; ustack = 0 }) s.tasks) {
          task_list = clist_delete pos s.tasks.task_list;
        };
      } in
      (
        s',
        rw (task_delete, real, delete_task, e1, e2, none, tables, directory, drop_slot, e3) refl,
        clist_delete-IsRing pos x us ys s.tasks.task_list r room,
        refl,
        subst (λ d. ((unbind_table pd 0x0 s.mmu).directory d).present ≡ 0) kernel_dir kept.0,
      )
    where
      pos_real : pos ≢ 0
      pos_real e = ground (arith, r.non_null, has-append 0 us (pos ∷ ys), ==_iff 0 pos)
