-- ===== src/Elf/Loaded.antt =====
-- The program that was loaded is a running task.
use rubi_kernel.Prelude.{
  ℕ, zero, suc, ◌+◌, ◌^◌, ◌<◌, ◌≡◌, ◌≢◌, ◌∙◌, refl, sym, ap, subst, false, some, inl, inr, List, [],
  ◌∷◌, ◌++◌, ◌==◌, ==_refl, Bool-cases, for_range, for_range-zero, for_range-suc, u32, Run, ok,
  fault, out_of_fuel, ◌>>=◌, arith,
}
use rubi_kernel.Klib.Text.{Mem, strlen}
use rubi_kernel.Klib.Slist.Chain.{has}
use rubi_kernel.Klib.Clist.Ring.{IsRing}
use rubi_kernel.Memory.Heap.{Kheap, kmalloc}
use rubi_kernel.Memory.Mmu.{Mmu}
use rubi_kernel.Memory.Tables.{create_page_directory, create_page_table}
use rubi_kernel.Sched.{Tasks, task_running, set_task}
use rubi_kernel.Sched.Life.{Machine, task_size, task_kstack_size, task_ustack_size, memory_for}
use rubi_kernel.Sched.Life.Created.{task_create-IsRing}
use rubi_kernel.Elf.{
  Loader, e_entry, e_phnum, p_offset, p_vaddr, p_filesz, p_memsz, pages_for, new_loader, add_page,
  store_bytes, fill_segment, load_segment, header_at, load_segments, start_task, elf_exec,
}

-- When a composed run returns, so did its first part.
ok_parts :
    {A B : Type 0} (r : Run A) (f : A → Run B) (b : B)
    → (r >>= f) ≡ ok b
    → (a : A) × (r ≡ ok a) × (f a ≡ ok b)
ok_parts (ok a) f b e = (a, refl, e)
ok_parts fault f b e = absurd (cc)
ok_parts out_of_fuel f b e = absurd (cc)

result : {A : Type 0} → A → Run A → A
result d (ok a) = a
result d fault = d
result d out_of_fuel = d

ok_eq : {A : Type 0} (a b : A) → ok a ≡ ok b → a ≡ b
unfolding result
ok_eq a b e = ap (result a) e

module _ {W : Type 0} where
  -- The tasks, the heap and the addresses of the task's tables are the same.
  record SameTasks (s s' : Loader W) : Type 0 where
    tasks_same : s'.machine.tasks ≡ s.machine.tasks
    heap_same : s'.machine.heap ≡ s.machine.heap
    dir_same : s'.task_mem.page_dir ≡ s.task_mem.page_dir

  same_refl : (s : Loader W) → SameTasks s s
  same_refl s = record { tasks_same = refl; heap_same = refl; dir_same = refl }

  same_trans : {s t u : Loader W} → SameTasks s t → SameTasks t u → SameTasks s u
  same_trans a b = record {
    tasks_same = b.tasks_same ∙ a.tasks_same;
    heap_same = b.heap_same ∙ a.heap_same;
    dir_same = b.dir_same ∙ a.dir_same;
  }

  same_world : (s : Loader W) (w : W) → SameTasks s (record s { world = w })
  same_world s w = record { tasks_same = refl; heap_same = refl; dir_same = refl }

  not_ok : (s : Loader W) → fault ≢ ok s
  not_ok s e = cc

  pages_same :
      (rounds first h : ℕ) (s : Loader W) → SameTasks s (for_range rounds first (add_page h) s)
  unfolding add_page
  pages_same zero first h s = rw (for_range-zero first (add_page h) s) (same_refl s)
  pages_same (suc rounds) first h s = rw (for_range-suc rounds first (add_page h) s) (
      same_trans (record { tasks_same = refl; heap_same = refl; dir_same = refl })
        (pages_same rounds (first + 1) h (add_page h first s)))

  module _ (store : Mmu → (page_dir addr byte : ℕ) → W → Run W) where
    fill_same :
        (h section start : ℕ) (s s' : Loader W)
        → fill_segment store h section start s ≡ ok s'
        → SameTasks s s'
    unfolding fill_segment
    fill_same h section start s s' e =
        let m = s.machine.mem in
        let pd = s.task_mem.page_dir in
        elim (Bool-cases (p_filesz m h == 0)) [
          | inl z ↦
              let (w, f, g) =
                ok_parts (store_bytes store (p_memsz m h) 0 start (λ i. 0) s.machine.mmu pd s.world)
                  (λ w. ok (record s { world = w })) s' (rw z at e) in
              subst (λ u. SameTasks s u) (ok_eq (record s { world = w }) s' g) (same_world s w)
          | inr z ↦
              let (w, f, g) =
                ok_parts
                  (store_bytes store (p_filesz m h) 0 start (λ i. m (u32 (section + i)))
                    s.machine.mmu pd s.world)
                  (λ w. ok (record s { world = w })) s' (rw z at e) in
              subst (λ u. SameTasks s u) (ok_eq (record s { world = w }) s' g) (same_world s w)
        ]

    segment_same :
        (base h : ℕ) (s s' : Loader W) → load_segment store base h s ≡ ok s' → SameTasks s s'
    unfolding load_segment
    segment_same base h s s' e =
        let m = s.machine.mem in
        let s1 = for_range (pages_for (p_memsz m h)) 0 (add_page h) s in
        elim (Bool-cases (p_memsz m h == 0)) [
          | inl z ↦ subst (λ u. SameTasks s u) (ok_eq s s' (rw z at e)) (same_refl s)
          | inr z ↦ elim (Bool-cases (s.task_mem.pages == 0)) [
            | inl n ↦ absurd (not_ok s' (rw (z, n) at e))
            | inr n ↦
                same_trans (pages_same (pages_for (p_memsz m h)) 0 h s)
                  (fill_same h (u32 (base + p_offset m h)) (p_vaddr m h) s1 s' (rw (z, n) at e))
          ]
        ]

    segments_same :
        (count base i : ℕ) (s s' : Loader W)
        → load_segments store count base i s ≡ ok s'
        → SameTasks s s'
    unfolding load_segments
    segments_same zero base i s s' e = subst (λ u. SameTasks s u) (ok_eq s s' e) (same_refl s)
    segments_same (suc count) base i s s' e =
        let (s1, f, g) =
          ok_parts (load_segment store base (header_at s.machine.mem base i) s)
            (load_segments store count base (i + 1)) s' e in
        same_trans (segment_same base (header_at s.machine.mem base i) s s1 f)
          (segments_same count base (i + 1) s1 s' g)

    -- On a ring of tasks with room in its count, when the page directory, the page table, the array of pages
    -- and the blocks of a new task can be had, with a slot `a` that is not NULL and not in the ring, and the
    -- segments of the file are loaded without a fault: `elf_exec` returns `a`, which is behind all others in
    -- the ring, runs, starts at the entry of the file and has the memory that the segments were loaded into,
    -- under the new directory. No other task changes.
    pub elf_exec-IsRing :
        (fuel eflags base name : ℕ) (s : Machine) (w : W) (xs : List ℕ)
        (dir table pages a kstack ustack len : ℕ) (m1 m2 : Mem) (h1 h2 h3 k1 k2 k3 : Kheap)
        (l : Loader W)
        → IsRing s.tasks.task_list xs
        → s.tasks.task_list.slots + 1 < 2 ^ 32
        → create_page_directory fuel s.mmu.kernel_page_directory s.mem s.heap ≡ ok (dir, m1, h1)
        → create_page_table fuel 32 m1 h1 ≡ ok (table, m2, h2)
        → kmalloc fuel 128 h2 ≡ ok (pages, h3)
        → load_segments store (e_phnum m2 base) base 0 (new_loader dir table pages m2 h3 s w) ≡ ok l
        → kmalloc fuel task_size h3 ≡ ok (a, k1)
        → a ≢ 0
        → has a xs ≡ false
        → kmalloc fuel task_kstack_size k1 ≡ ok (kstack, k2)
        → kmalloc fuel task_ustack_size k2 ≡ ok (ustack, k3)
        → strlen fuel name l.machine.mem ≡ ok len
        → (l' : Loader W) × (elf_exec store fuel eflags base name s w ≡ ok (a, l'))
          × IsRing l'.machine.tasks.task_list (xs ++ (a ∷ []))
          × ((l'.machine.tasks.task a).status ≡ task_running)
          × ((l'.machine.tasks.task a).op_registers.eip ≡ e_entry s.mem base)
          × ((l'.machine.tasks.task a).task_mem ≡ l.task_mem)
          × (l.task_mem.page_dir ≡ dir)
          × ((z : ℕ) → z ≢ a → l'.machine.tasks.task z ≡ s.tasks.task z)
    unfolding elf_exec start_task new_loader memory_for
    elf_exec-IsRing fuel eflags base name s w xs dir table pages a kstack ustack len m1 m2 h1 h2 h3
          k1 k2 k3 l r room d1 d2 d3 d4 e1 n new e2 e3 e4 =
        let begin = new_loader dir table pages m2 h3 s w in
        let same = segments_same (e_phnum m2 base) base 0 begin l d4 in
        let ring : IsRing l.machine.tasks.task_list xs =
          subst (λ (t : Tasks). IsRing t.task_list xs) (sym same.tasks_same) r in
        let count : l.machine.tasks.task_list.slots + 1 < 2 ^ 32 =
          subst (λ (t : Tasks). t.task_list.slots + 1 < 2 ^ 32) (sym same.tasks_same) room in
        let slot : kmalloc fuel task_size l.machine.heap ≡ ok (a, k1) =
          ap (kmalloc fuel task_size) same.heap_same ∙ e1 in
        let (k, made, in_ring, fresh, heap_eq) =
          task_create-IsRing fuel eflags (e_entry s.mem base) (some l.task_mem) name l.machine xs a
            kstack ustack len k1 k2 k3 ring count slot n new e2 e3 e4 in
        let t = record (k.tasks.task a) { status = task_running } in
        let l' : Loader W = record l { machine = record k { tasks = set_task a t k.tasks } } in
        (
          l',
          rw (elf_exec, d1, d2, d3, d4, start_task, made) refl,
          in_ring,
          rw (==_refl a) refl,
          rw (==_refl a) fresh.eip_eq,
          rw (==_refl a) fresh.memory_eq,
          same.dir_same,
          λ z d.
              let far : (a == z) ≡ false = ground arith in
              rw far (fresh.others z d ∙ ap (λ (u : Tasks). u.task z) same.tasks_same),
        )
