-- ===== src/Memory/Tables/Leak.antt =====
-- Page tables in the heap.
use rubi_kernel.Prelude.{
  ℕ, ◌+◌, ◌*◌, ◌^◌, ◌≤◌, ◌<◌, ◌≡◌, ◌≢◌, refl, ◌∙◌, true, false, ◌&&◌, arith, ltb, leb, ◌==◌, Run,
  ok,
}
use rubi_kernel.Klib.Text.{Mem, memset}
use rubi_kernel.Klib.Text.Memory.{inside, memset_lem}
use rubi_kernel.Memory.Heap.{Kheap, kheap_start_addr, kheap_size, kmalloc}
use rubi_kernel.Memory.Heap.Aligned.{aligned_in_block}
use rubi_kernel.Memory.Tables.{entry_size, create_page_table, kernel_tables_end, free_page_table}

-- When the kernel's first page table lies below the heap and not below the kernel's base address, freeing a page
-- table that lies in the heap changes nothing: the heap lies before the computed end of the kernel's tables.
pub free_page_table_keeps :
    (fuel kernel_page_table pt : ℕ) (m : Mem) (s : Kheap)
    → 0xC0000000 ≤ kernel_page_table
    → kernel_page_table ≤ kheap_start_addr
    → kheap_start_addr ≤ pt
    → pt < kheap_start_addr + kheap_size
    → free_page_table fuel kernel_page_table pt m s ≡ ok s
unfolding free_page_table
free_page_table_keeps fuel kernel_page_table pt m s low high from to =
    let end : kernel_tables_end kernel_page_table ≡ kernel_page_table + 0x8000000 = omega arith in
    let inner : (leb kernel_page_table pt && leb pt (kernel_tables_end kernel_page_table)) ≡ true =
      rw end (ground arith) in
    rw inner refl

-- an aligned table of zeros
pub record ZeroTable (p count : ℕ) (s : Kheap) (out : Run (ℕ × Mem × Kheap)) : Type 0 where
  pub table : ℕ
  pub memory : Mem
  pub page : ℕ
  pub result : out ≡ ok (table, memory, s)
  pub aligned : table ≡ page * 4096
  pub after : p + 4 ≤ table
  pub fits : table + entry_size * count ≤ p + (entry_size * count + 4096 + 4)
  pub zeros : (i : ℕ) → i < entry_size * count → memory (table + i) ≡ 0

-- When `kmalloc` of the size of the table and of its alignment gives out the block at `p`, which does not
-- wrap, `create_page_table` of at most 1024 entries returns a table at a multiple of 4096 that lies in the block
-- and holds only zeros.
pub create_page_table_lem :
    (fuel count p : ℕ) (m : Mem) (s t : Kheap)
    → count ≤ 1024
    → kmalloc fuel (entry_size * count + 4096 + 4) s ≡ ok (p, t)
    → p ≢ 0
    → p + 4096 + 4 < 2 ^ 32
    → ZeroTable p count t (create_page_table fuel count m s)
unfolding create_page_table
create_page_table_lem fuel count p m s t few e n room =
    let a =
      aligned_in_block fuel (entry_size * count) 4096 p m s t (omega arith) (omega arith) e n
        room in
    let small : ltb 1024 count ≡ false = ground arith in
    let real : (a.ptr == 0) ≡ false = ground (arith, a.header) in
    record {
      table = a.ptr;
      memory = memset a.ptr 0 (entry_size * count) a.memory;
      page = a.multiple;
      result = rw (small, a.result, real) refl;
      aligned = a.aligned;
      after = a.header;
      fits = a.fits;
      zeros = λ i h.
          let within : inside a.ptr (entry_size * count) (a.ptr + i) ≡ true = ground arith in
          memset_lem a.ptr 0 (entry_size * count) a.memory (a.ptr + i) ∙ (rw within refl);
    }
