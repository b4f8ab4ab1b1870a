-- ===== src/Memory/Mmu/Init/Mapped.antt =====
-- The loop over the pages of the kernel's heap, round by round.
use rubi_kernel.Prelude.{
  ℕ, zero, suc, ◌+◌, ◌-◌, ◌*◌, ◌/◌, ◌%◌, ◌^◌, ◌≤◌, ◌<◌, ◌≡◌, ◌≢◌, ◌∙◌, refl, sym, ap, subst, false,
  inl, inr, ltb, ◌==◌, if◌then◌else◌, ==_iff, ==_refl, Bool-cases, update, for_range, for_range-suc,
  for_range-zero, arith,
}
use rubi_kernel.Memory.Layout.{phys}
use rubi_kernel.Memory.Mmu.{pages_bitmap, PageDirectoryEntry, Mmu, get_page_from_bitmap}
use rubi_kernel.Memory.Mmu.Marking.{IsWords, page}
use rubi_kernel.Memory.Mmu.Init.{map_heap_page}
use rubi_kernel.Memory.Mmu.Init.Rounds.{
  heap_pte, heap_pde, heap_table, with_table, Round, map_heap_page_lem,
}

-- The first `n` pages of the heap are mapped and marked; the marks that are not of the heap are those of `m`.
pub record Filled (pd pt n : ℕ) (m s : Mmu) : Type 0 where
  pub entries :
      (i : ℕ)
      → i < n
      → ((s.table (heap_pte pt i)).present ≡ 1)
        × ((s.table (heap_pte pt i)).page_phys_addr ≡ 4096 + i)
  pub tables :
      (i : ℕ)
      → i < n
      → ((s.directory (heap_pde pd i)).present ≡ 1)
        × ((s.directory (heap_pde pd i)).page_table_addr ≡ heap_table pt i)
  pub marks :
      (b : ℕ)
      → 4096 ≤ page b
      → get_page_from_bitmap pages_bitmap b s
        ≡ (if ltb (page b) (4096 + n) then 1 else get_page_from_bitmap pages_bitmap b m)
  pub in_words : IsWords s
  pub lock : s.kernel_pages_operations ≡ 1
  pub pt_eq : s.kernel_page_table ≡ pt
  pub pd_eq : s.kernel_page_directory ≡ pd

update_same : (d : ℕ → PageDirectoryEntry) (a : ℕ) (e : PageDirectoryEntry) → update d a e a ≡ e
update_same d a e = rw (==_refl a) refl

update_other :
    (d : ℕ → PageDirectoryEntry) (a b : ℕ) (e : PageDirectoryEntry) → a ≢ b → update d a e b ≡ d b
update_other d a b e n = let other : (a == b) ≡ false = ground arith in rw other refl

-- the directory's entry for the page `i`, when it is there for the page `n`
same_table :
    (pd pt n i : ℕ) (d : ℕ → PageDirectoryEntry)
    → n / 1024 ≡ i / 1024
    → ((d (heap_pde pd n)).present ≡ 1) × ((d (heap_pde pd n)).page_table_addr ≡ heap_table pt n)
    → ((d (heap_pde pd i)).present ≡ 1) × ((d (heap_pde pd i)).page_table_addr ≡ heap_table pt i)
same_table pd pt n i d e h =
    subst
      (λ q.
        ((d (pd + 4 * (772 + q))).present ≡ 1)
        × ((d (pd + 4 * (772 + q))).page_table_addr ≡ phys (pt + 4 * (4096 + q * 1024)) / 2 ^ 12))
      e h

module _ (pd pt n : ℕ) (m s s' : Mmu) (low : n < 4096) (f : Filled pd pt n m s)
    (r : Round n s s') where
  next_entries :
      (i : ℕ)
      → i < n + 1
      → ((s'.table (heap_pte pt i)).present ≡ 1)
        × ((s'.table (heap_pte pt i)).page_phys_addr ≡ 4096 + i)
  next_entries i h = elim (Bool-cases (i == n)) [
    | inl e ↦
        subst
          (λ j.
            ((s'.table (heap_pte pt j)).present ≡ 1)
            × ((s'.table (heap_pte pt j)).page_phys_addr ≡ 4096 + j))
          (sym ((==_iff i n).0 e))
          (subst
            (λ q.
              ((s'.table (heap_pte q n)).present ≡ 1)
              × ((s'.table (heap_pte q n)).page_phys_addr ≡ 4096 + n))
            f.pt_eq r.entry)
    | inr e ↦
        let same = r.entries (heap_pte pt i) (λ g. ground (arith, f.pt_eq)) in
        let old = f.entries i (ground arith) in
        (ap (λ t. t.present) same ∙ old.0, ap (λ t. t.page_phys_addr) same ∙ old.1)
  ]

  next_marks :
      (b : ℕ)
      → 4096 ≤ page b
      → get_page_from_bitmap pages_bitmap b s'
        ≡ (if ltb (page b) (4096 + (n + 1)) then 1 else get_page_from_bitmap pages_bitmap b m)
  next_marks b h = ground (arith, r.marks b, f.marks b h)

  first_of_table :
      n % 1024 ≡ 0
      → ((s'.directory (heap_pde pd n)).present ≡ 1)
        × ((s'.directory (heap_pde pd n)).page_table_addr ≡ heap_table pt n)
  first_of_table z =
      let old = s.directory (heap_pde s.kernel_page_directory n) in
      let at = heap_pde s.kernel_page_directory n in
      let made : s'.directory at ≡ with_table s.kernel_page_table n old =
        ap (λ (d : ℕ → PageDirectoryEntry). d at) (r.table_new z)
        ∙ update_same s.directory at (with_table s.kernel_page_table n old) in
      let whole : n / 1024 * 1024 ≡ n = omega arith in
      subst
        (λ q.
          ((s'.directory (heap_pde q n)).present ≡ 1)
          × ((s'.directory (heap_pde q n)).page_table_addr ≡ heap_table pt n))
        f.pd_eq
        (
          ap (λ (e : PageDirectoryEntry). e.present) made,
          ap (λ (e : PageDirectoryEntry). e.page_table_addr) made
              ∙ ap (λ q. phys (q + 4 * (4096 + n)) / 2 ^ 12) f.pt_eq
              ∙ ap (λ k. phys (pt + 4 * (4096 + k)) / 2 ^ 12) (sym whole),
        )

  kept_at :
      (i : ℕ)
      → i < n
      → s'.directory (heap_pde pd i) ≡ s.directory (heap_pde pd i)
      → ((s'.directory (heap_pde pd i)).present ≡ 1)
        × ((s'.directory (heap_pde pd i)).page_table_addr ≡ heap_table pt i)
  kept_at i h e =
      let old = f.tables i h in
      (
        ap (λ (t : PageDirectoryEntry). t.present) e ∙ old.0,
        ap (λ (t : PageDirectoryEntry). t.page_table_addr) e ∙ old.1,
      )

  next_tables :
      (i : ℕ)
      → i < n + 1
      → ((s'.directory (heap_pde pd i)).present ≡ 1)
        × ((s'.directory (heap_pde pd i)).page_table_addr ≡ heap_table pt i)
  next_tables i h = elim (Bool-cases (n % 1024 == 0)) [
    | inl z ↦ elim (Bool-cases (i == n)) [
      | inl e ↦
          same_table pd pt n i s'.directory (ap (λ j. j / 1024) (sym ((==_iff i n).0 e)))
            (first_of_table ((==_iff (n % 1024) 0).0 z))
      | inr e ↦
          let at = heap_pde s.kernel_page_directory n in
          let other : at ≢ heap_pde pd i = λ g. ground (arith, f.pd_eq) in
          let new = with_table s.kernel_page_table n (s.directory at) in
          kept_at i (ground arith) (
            ap (λ (d : ℕ → PageDirectoryEntry). d (heap_pde pd i)) (r.table_new (ground arith))
            ∙ update_other s.directory at (heap_pde pd i) new other)
    ]
    | inr z ↦
        let same =
          λ (a : ℕ). ap (λ (d : ℕ → PageDirectoryEntry). d a) (r.table_old (λ g. ground arith)) in
        elim (Bool-cases (i == n)) [
          | inl e ↦
              same_table pd pt (n - 1) i s'.directory (ground arith)
                (kept_at (n - 1) (ground arith) (same (heap_pde pd (n - 1))))
          | inr e ↦ kept_at i (ground arith) (same (heap_pde pd i))
        ]
  ]

  next_Filled : Filled pd pt (n + 1) m s'
  next_Filled = record {
    entries = next_entries;
    tables = next_tables;
    marks = next_marks;
    in_words = r.in_words;
    lock = r.lock;
    pt_eq = r.pt_same ∙ f.pt_eq;
    pd_eq = r.pd_same ∙ f.pd_eq;
  }

pub all_rounds :
    (rounds n pd pt : ℕ) (m s : Mmu)
    → n + rounds ≤ 4096
    → Filled pd pt n m s
    → Filled pd pt (n + rounds) m (for_range rounds n map_heap_page s)
all_rounds zero n pd pt m s h f =
    let same : n + 0 ≡ n = omega arith in
    rw (for_range-zero n map_heap_page s) (subst (λ k. Filled pd pt k m s) (sym same) f)
all_rounds (suc rounds) n pd pt m s h f =
    let r = map_heap_page_lem n s (omega arith) f.in_words f.lock in
    let next = next_Filled pd pt n m s (map_heap_page n s) (omega arith) f r in
    let count : n + 1 + rounds ≡ n + suc rounds = omega arith in
    rw (for_range-suc rounds n map_heap_page s) (
      subst (λ k. Filled pd pt k m (for_range rounds (n + 1) map_heap_page (map_heap_page n s)))
        count (all_rounds rounds (n + 1) pd pt m (map_heap_page n s) (omega arith) next))
