-- ===== src/Memory/Mmu/Init/Whole.antt =====
-- What init_memory_manager leaves: the kernel's heap is mapped.
use rubi_kernel.Prelude.{
  ℕ, zero, suc, ◌+◌, ◌*◌, ◌^◌, ◌≤◌, ◌<◌, ◌≡◌, ◌∙◌, refl, ap, false, inl, inr, ltb, ◌==◌,
  if◌then◌else◌, Bool-cases, update, for_range, for_range-suc, for_range-zero, arith,
}
use rubi_kernel.Bits.{bit}
use rubi_kernel.Memory.Mmu.{pages_bitmap, Mmu, word_index, bit_index, get_page_from_bitmap}
use rubi_kernel.Memory.Mmu.Marking.{IsWords, page}
use rubi_kernel.Memory.Mmu.Init.{clear_bytes, fill_low, heap_pages, init_memory_manager}
use rubi_kernel.Memory.Mmu.Init.Rounds.{heap_pte, heap_pde, heap_table}
use rubi_kernel.Memory.Mmu.Init.Mapped.{Filled, all_rounds}

-- a property that every round of a loop keeps
for_range_keeps :
    {A : Type 0} (P : A → Type 0) (rounds first : ℕ) (round : ℕ → A → A) (a : A)
    → ((i : ℕ) (b : A) → first ≤ i → i < first + rounds → P b → P (round i b))
    → P a
    → P (for_range rounds first round a)
for_range_keeps P zero first round a h p = rw (for_range-zero first round a) p
for_range_keeps P (suc rounds) first round a h p = rw (for_range-suc rounds first round a) (
    for_range_keeps P rounds (first + 1) round (round first a)
      (λ i b low high q. h i b (omega arith) (omega arith) q)
      (h first a (omega arith) (omega arith) p))

-- Words that differ from `w` in the first 128 only.
abbrev LikeBehind : (w v : ℕ → ℕ) → Type 0
LikeBehind w v = ((k : ℕ) → 128 ≤ k → v k ≡ w k) × ((k : ℕ) → v k < 2 ^ 32)

fill_low_lem : (w : ℕ → ℕ) → ((k : ℕ) → w k < 2 ^ 32) → LikeBehind w (fill_low w)
fill_low_lem w h =
    for_range_keeps (LikeBehind w) 4 0
      (λ i u. for_range 32 0 (λ j v. update v (i * 32 + j) 0b11111111111111111111111111111111) u) w
      (λ i u low high p.
        for_range_keeps (LikeBehind w) 32 0
          (λ j v. update v (i * 32 + j) 0b11111111111111111111111111111111) u
          (λ j v low' high' q. one_word i j v high high' q) p)
      (λ k g. refl, h)
  where
    one_word :
        (i j : ℕ) (v : ℕ → ℕ)
        → i < 0 + 4
        → j < 0 + 32
        → LikeBehind w v
        → LikeBehind w (update v (i * 32 + j) 0b11111111111111111111111111111111)
    one_word i j v a b q = (
      λ k g. let other : (i * 32 + j == k) ≡ false = ground arith in rw other (q.0 k g),
      λ k. elim (Bool-cases (i * 32 + j == k)) [
        | inl e ↦ rw e (omega arith)
        | inr e ↦ rw e (q.1 k)
      ],
    )

-- Started with a bitmap of 32-bit words, `init_memory_manager` leaves every page of the kernel's heap, 4096
-- from 0xC1000000 on, mapped to the frame of the same number from 16 MB on, with the table that holds its
-- entry present in the kernel's directory, and every one of these frames marked. The marks of all frames
-- behind them, the user's, are the ones that it started with. The lock is off.
pub init_memory_manager_lem :
    (pd pt : ℕ) (s : Mmu)
    → IsWords s
    → let r = init_memory_manager pd pt s in
      ((i : ℕ)
        → i < 4096
        → ((r.table (heap_pte pt i)).present ≡ 1)
          × ((r.table (heap_pte pt i)).page_phys_addr ≡ 4096 + i))
      × ((i : ℕ)
          → i < 4096
          → ((r.directory (heap_pde pd i)).present ≡ 1)
            × ((r.directory (heap_pde pd i)).page_table_addr ≡ heap_table pt i))
      × ((b : ℕ)
          → 4096 ≤ page b
          → get_page_from_bitmap pages_bitmap b r
            ≡ (if ltb (page b) 8192 then 1 else get_page_from_bitmap pages_bitmap b s))
      × (r.kernel_pages_operations ≡ 0)
unfolding init_memory_manager get_page_from_bitmap
init_memory_manager_lem pd pt s w =
    let cleared = clear_bytes 512 s.pages in
    let cleared_words : (k : ℕ) → cleared k < 2 ^ 32 = λ k. ground (arith, w k) in
    let low = fill_low_lem cleared cleared_words in
    let s1 : Mmu = record s {
      kernel_page_directory = pd;
      kernel_page_table = pt;
      pages = fill_low cleared;
      extended = clear_bytes 4096 s.extended;
      kernel_pages_operations = 1;
    } in
    let start : Filled pd pt 0 s s1 = record {
      entries = λ i h. absurd (omega arith);
      tables = λ i h. absurd (omega arith);
      marks = λ b h.
          let behind : ltb (page b) 4096 ≡ false = ground arith in
          let uncleared : ltb (word_index b) 128 ≡ false = ground arith in
          let word : fill_low cleared (word_index b) ≡ s.pages (word_index b) =
            low.0 (word_index b) (omega arith) ∙ rw uncleared refl in
          rw behind (ap (λ v. bit v (bit_index b)) word);
      in_words = low.1;
      lock = refl;
      pt_eq = refl;
      pd_eq = refl;
    } in
    let f = all_rounds heap_pages 0 pd pt s s1 (omega arith) start in
    (f.entries, f.tables, f.marks, refl)
