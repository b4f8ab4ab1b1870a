-- ===== src/Memory/Mmu/Init/Rounds.antt =====
-- One round of the loop that maps the kernel's heap.
use rubi_kernel.Prelude.{
  ℕ, ◌+◌, ◌*◌, ◌/◌, ◌%◌, ◌^◌, ◌<◌, ◌≡◌, ◌≢◌, ◌∙◌, refl, ap, ap₂, subst, bit_and, true, false, inl,
  inr, ◌==◌, if◌then◌else◌, ==_iff, Bool-cases, update, arith,
}
use rubi_kernel.Bits.Fields.{bit_and-ones, bit_and-shift}
use rubi_kernel.Memory.Layout.{phys, table_size, table_bit_field}
use rubi_kernel.Memory.Mmu.{
  pages_bitmap, PageDirectoryEntry, PageTableEntry, Mmu, get_page_from_bitmap, set_page_to_bitmap,
  simple_page_bitmap_callback, protected_linear, protected_phys, pde_at, pte_at, bind_table,
  write_pte, bind_page,
}
use rubi_kernel.Memory.Mmu.Marking.{IsWords, page, Tracked}
use rubi_kernel.Memory.Mmu.Binding.{bind_unguarded, bind_page_lem}
use rubi_kernel.Memory.Mmu.Init.{heap_linear, map_heap_page}

bit_and-middle : (s x : ℕ) → bit_and x (1023 * 2 ^ s) ≡ x / 2 ^ s % 1024 * 2 ^ s
bit_and-middle s x = bit_and-shift s x 1023 ∙ ap (λ a. a * 2 ^ s) (bit_and-ones 10 (x / 2 ^ s))

-- the entry of the heap's page `n`
abbrev pub heap_pte : (kpt n : ℕ) → ℕ
heap_pte kpt n = kpt + 4 * (4096 + n)

abbrev pub heap_pde : (kpd n : ℕ) → ℕ
heap_pde kpd n = kpd + 4 * (772 + n / 1024)

-- the physical page of the table that the heap's page `n` is in
abbrev pub heap_table : (kpt n : ℕ) → ℕ
heap_table kpt n = phys (kpt + 4 * (4096 + n / 1024 * 1024)) / 2 ^ 12

entry_address :
    (kpt n : ℕ)
    → n < 4096
    → pte_at (kpt + 4 * bit_and (4096 + n) (table_bit_field / 4)) (heap_linear n) ≡ heap_pte kpt n
entry_address kpt n h =
    let table = bit_and-middle 10 (4096 + n) in
    let entry = bit_and-middle 12 (heap_linear n) in omega (arith, table, entry)

directory_address : (kpd n : ℕ) → n < 4096 → pde_at kpd (heap_linear n) ≡ heap_pde kpd n
directory_address kpd n h = omega arith

frame_address : (n : ℕ) → n < 4096 → phys (heap_linear n) ≡ (4096 + n) * 4096
frame_address n h = omega arith

-- the directory's entry when it names the heap's table
abbrev pub with_table : (kpt n : ℕ) → PageDirectoryEntry → PageDirectoryEntry
with_table kpt n e = record e {
  present = 1;
  read_write = 1;
  user_supervisor = 0;
  page_table_addr = phys (kpt + 4 * (4096 + n)) / 2 ^ 12;
}

-- what a round does to the directory
abbrev bound_table : (n : ℕ) → Mmu → Mmu
bound_table n s =
    if heap_linear n % table_size == 0
    then bind_table s.kernel_page_directory (s.kernel_page_table + 4 * (4096 + n)) (heap_linear n) s
    else s

-- `s'` differs from `s` in the directory only
record SameButDirectory (s s' : Mmu) : Type 0 where
  table_same : s'.table ≡ s.table
  pages_same : s'.pages ≡ s.pages
  lock_same : s'.kernel_pages_operations ≡ s.kernel_pages_operations
  pt_same : s'.kernel_page_table ≡ s.kernel_page_table
  pd_same : s'.kernel_page_directory ≡ s.kernel_page_directory

bind_table_rest : (pd pt l : ℕ) (s : Mmu) → SameButDirectory s (bind_table pd pt l s)
unfolding bind_table
bind_table_rest pd pt l s = elim (Bool-cases (protected_linear l s)) [
  | inl e ↦ record {
    table_same = rw e refl;
    pages_same = rw e refl;
    lock_same = rw e refl;
    pt_same = rw e refl;
    pd_same = rw e refl;
  }
  | inr e ↦ record {
    table_same = rw e refl;
    pages_same = rw e refl;
    lock_same = rw e refl;
    pt_same = rw e refl;
    pd_same = rw e refl;
  }
]

bound_table_rest : (n : ℕ) (s : Mmu) → SameButDirectory s (bound_table n s)
bound_table_rest n s = elim (Bool-cases (heap_linear n % table_size == 0)) [
  | inl e ↦ rw e (
      bind_table_rest s.kernel_page_directory (s.kernel_page_table + 4 * (4096 + n)) (heap_linear n)
        s)
  | inr e ↦ rw e (record {
    table_same = refl;
    pages_same = refl;
    lock_same = refl;
    pt_same = refl;
    pd_same = refl;
  })
]

marking_rest :
    (a v : ℕ) (s : Mmu)
    → ((set_page_to_bitmap pages_bitmap a v s).directory ≡ s.directory)
      × ((set_page_to_bitmap pages_bitmap a v s).table ≡ s.table)
      × ((set_page_to_bitmap pages_bitmap a v s).kernel_page_table ≡ s.kernel_page_table)
      × ((set_page_to_bitmap pages_bitmap a v s).kernel_page_directory ≡ s.kernel_page_directory)
unfolding set_page_to_bitmap
marking_rest a v s = elim (Bool-cases (v == 0)) [
  | inl z ↦ rw z (refl, refl, refl, refl)
  | inr z ↦ rw z (refl, refl, refl, refl)
]

write_rest :
    (pt l p : ℕ) (s : Mmu)
    → ((write_pte pt l p s).directory ≡ s.directory)
      × ((a : ℕ) → a ≢ pte_at pt l → (write_pte pt l p s).table a ≡ s.table a)
      × ((write_pte pt l p s).kernel_page_table ≡ s.kernel_page_table)
      × ((write_pte pt l p s).kernel_page_directory ≡ s.kernel_page_directory)
unfolding write_pte
write_rest pt l p s = (
  refl,
  λ a d.
      let other : (pte_at pt l == a) ≡ false = ground (arith, ==_iff (pte_at pt l) a) in
      rw other refl,
  refl,
  refl,
)

table_made :
    (n : ℕ) (s : Mmu)
    → n < 4096
    → s.kernel_pages_operations ≡ 1
    → n % 1024 ≡ 0
    → (bound_table n s).directory
      ≡ update s.directory
          (heap_pde s.kernel_page_directory n)
          (with_table s.kernel_page_table n (s.directory (heap_pde s.kernel_page_directory n)))
unfolding bind_table
table_made n s h lock z =
    let first : (heap_linear n % table_size == 0) ≡ true = ground arith in
    let free : protected_linear (heap_linear n) s ≡ false = ground arith in
    rw (first, free, directory_address s.kernel_page_directory n h) refl

table_kept : (n : ℕ) (s : Mmu) → n % 1024 ≢ 0 → bound_table n s ≡ s
table_kept n s z =
    let later : (heap_linear n % table_size == 0) ≡ false = ground arith in rw later refl

-- what a round leaves of `s`
pub record Round (n : ℕ) (s s' : Mmu) : Type 0 where
  pub entry :
      ((s'.table (heap_pte s.kernel_page_table n)).present ≡ 1)
      × ((s'.table (heap_pte s.kernel_page_table n)).page_phys_addr ≡ 4096 + n)
  pub entries : (a : ℕ) → a ≢ heap_pte s.kernel_page_table n → s'.table a ≡ s.table a
  pub table_new :
      n % 1024 ≡ 0
      → s'.directory
        ≡ update s.directory
            (heap_pde s.kernel_page_directory n)
            (with_table s.kernel_page_table n (s.directory (heap_pde s.kernel_page_directory n)))
  pub table_old : n % 1024 ≢ 0 → s'.directory ≡ s.directory
  pub marks :
      (b : ℕ)
      → get_page_from_bitmap pages_bitmap b s'
        ≡ (if 4096 + n == page b then 1 else get_page_from_bitmap pages_bitmap b s)
  pub in_words : IsWords s'
  pub lock : s'.kernel_pages_operations ≡ 1
  pub pt_same : s'.kernel_page_table ≡ s.kernel_page_table
  pub pd_same : s'.kernel_page_directory ≡ s.kernel_page_directory

marks_same :
    (b : ℕ) (s s' : Mmu)
    → s'.pages ≡ s.pages
    → get_page_from_bitmap pages_bitmap b s' ≡ get_page_from_bitmap pages_bitmap b s
unfolding get_page_from_bitmap
marks_same b s s' e = rw e refl

pub map_heap_page_lem :
    (n : ℕ) (s : Mmu)
    → n < 4096
    → IsWords s
    → s.kernel_pages_operations ≡ 1
    → Round n s (map_heap_page n s)
unfolding map_heap_page
map_heap_page_lem n s h w lock =
    let s1 = bound_table n s in
    let same = bound_table_rest n s in
    let l = heap_linear n in
    let p = phys l in
    let pt = s.kernel_page_table + 4 * bit_and (4096 + n) (table_bit_field / 4) in
    let lock1 = same.lock_same ∙ lock in
    let w1 : IsWords s1 = λ i. rw same.pages_same (w i) in
    let free_l : protected_linear l s1 ≡ false = ground (arith, lock1) in
    let free_p : protected_phys p s1 ≡ false = ground (arith, lock1) in
    let frame = frame_address n h in
    let tracked : Tracked p = omega (arith, frame) in
    let bound = bind_page_lem pt l p s1 free_l free_p tracked w1 in
    let made = bind_unguarded pt l p s1 free_l free_p tracked in
    let at = entry_address s.kernel_page_table n h in
    let m = write_pte pt l p s1 in
    let marked = marking_rest p 1 m in
    let wrote = write_rest pt l p s1 in
    let directory : (map_heap_page n s).directory ≡ s1.directory =
      ap (λ (k : Mmu). k.directory) made ∙ marked.0 ∙ wrote.0 in
    let number : page p ≡ 4096 + n = omega (arith, frame) in
    let s' = bind_page pt l p simple_page_bitmap_callback s1 in
    record {
      entry =
          subst (λ a. ((s'.table a).present ≡ 1) × ((s'.table a).page_phys_addr ≡ 4096 + n)) at
            (bound.present, bound.frame ∙ number);
      entries = λ a d.
          ap (λ (k : Mmu). k.table a) made
          ∙ ap (λ (t : ℕ → PageTableEntry). t a) marked.1
          ∙ wrote.1 a (λ e. d (e ∙ at))
          ∙ ap (λ (t : ℕ → PageTableEntry). t a) same.table_same;
      table_new = λ z. directory ∙ table_made n s h lock z;
      table_old = λ z. directory ∙ ap (λ (k : Mmu). k.directory) (table_kept n s z);
      marks = λ b.
          bound.marks b
          ∙ ap₂ (λ q v. if q == page b then 1 else v) number (marks_same b s s1 same.pages_same);
      in_words = bound.in_words;
      lock = bound.lock ∙ lock1;
      pt_same = ap (λ (k : Mmu). k.kernel_page_table) made ∙ marked.2 ∙ wrote.2 ∙ same.pt_same;
      pd_same = ap (λ (k : Mmu). k.kernel_page_directory) made ∙ marked.3 ∙ wrote.3 ∙ same.pd_same;
    }
