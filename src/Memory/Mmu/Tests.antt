-- ===== src/Memory/Mmu/Tests.antt =====
-- mmu.c on concrete states.
use rubi_kernel.Prelude.{
  ℕ, ◌<◌, ◌≤◌, ltb, ◌+◌, ◌^◌, ◌≡◌, ◌≢◌, ◌⊎◌, refl, [], arith, ◌==◌, if◌then◌else◌,
}
use rubi_kernel.Memory.Layout.{kernel_extended_start, phys_tasks_space_start}
use rubi_kernel.Memory.Mmu.{
  pages_bitmap, PageDirectoryEntry, PageTableEntry, Mmu, pte_at, get_page_from_bitmap,
  set_page_to_bitmap, simple_page_bitmap_callback, bind_page, unbind_page, write_pte,
  alloc_page_from, alloc_page, alloc_page_extended,
}
use rubi_kernel.Memory.Mmu.Init.{init_memory_manager}
use rubi_kernel.Memory.Mmu.Init.Rounds.{heap_pte, heap_pde, heap_table}
use rubi_kernel.Memory.Mmu.Init.Whole.{init_memory_manager_lem}
use rubi_kernel.Memory.Mmu.Marking.{IsWords, page}
use rubi_kernel.Memory.Mmu.Binding.{Bound, bind_page_lem, unbind-bind}
use rubi_kernel.Memory.Mmu.Alloc.{
  Exhausted, FirstFit, alloc_page_lem, alloc_page-ne, alloc_page_extended_repeats,
}

abbrev no_directory : PageDirectoryEntry
no_directory = record {
  present = 0;
  read_write = 0;
  user_supervisor = 0;
  write_through = 0;
  cache_disabled = 0;
  accessed = 0;
  zero_bit = 0;
  page_size_bit = 0;
  ignored = 0;
  available = 0;
  page_table_addr = 0;
}

abbrev no_page : PageTableEntry
no_page = record {
  present = 0;
  read_write = 0;
  user_supervisor = 0;
  write_through = 0;
  cache_disabled = 0;
  accessed = 0;
  dirty = 0;
  zero_bit = 0;
  global = 0;
  available = 0;
  page_phys_addr = 0;
}

-- the first two user pages are marked
abbrev started : Mmu
started = record {
  extended = λ i. 0;
  pages = λ i. if i == 256 then 3 else 0;
  kernel_pages_operations = 0;
  directory = λ a. no_directory;
  table = λ a. no_page;
  kernel_page_directory = 0;
  kernel_page_table = 0;
  log = [];
}

started-IsWords : IsWords started
started-IsWords i = ground arith

first_free : (alloc_page 4096 8192 started).0 ≡ phys_tasks_space_start + 8192
unfolding alloc_page alloc_page_from get_page_from_bitmap
first_free = refl

next_free :
    (alloc_page 4096 12288 (alloc_page 4096 8192 started).1).0 ≡ phys_tasks_space_start + 12288
unfolding alloc_page alloc_page_from get_page_from_bitmap bind_page simple_page_bitmap_callback
    set_page_to_bitmap write_pte
next_free = refl

alloc_page_lem_example :
    Exhausted phys_tasks_space_start started (alloc_page 4096 8192 started)
    ⊎ FirstFit 4096 8192 phys_tasks_space_start started (alloc_page 4096 8192 started)
alloc_page_lem_example = alloc_page_lem 4096 8192 started

alloc_page-ne_example :
    page (alloc_page 4096 12288 (alloc_page 4096 8192 started).1).0
    ≢ page (alloc_page 4096 8192 started).0
alloc_page-ne_example =
    alloc_page-ne 4096 8192 4096 12288 started refl started-IsWords (λ e. omega (arith, first_free))
      (λ e. omega (arith, next_free))

bind_page_lem_example :
    Bound 4096 8192
      (2 ^ 25 + 8192)
      started
      (bind_page 4096 8192 (2 ^ 25 + 8192) simple_page_bitmap_callback started)
bind_page_lem_example =
    bind_page_lem 4096 8192 (2 ^ 25 + 8192) started refl refl (omega arith) started-IsWords

unbind-bind_example :
    let s' =
      unbind_page 4096 8192 simple_page_bitmap_callback
        (bind_page 4096 8192 (2 ^ 25 + 8192) simple_page_bitmap_callback started) in
    ((s'.table (pte_at 4096 8192)).present ≡ 0)
    × ((b : ℕ)
        → get_page_from_bitmap pages_bitmap b s' ≡ get_page_from_bitmap pages_bitmap b started)
unfolding get_page_from_bitmap
unbind-bind_example =
    unbind-bind 4096 8192 (2 ^ 25 + 8192) started refl refl (omega arith) started-IsWords refl

alloc_page_extended_repeats_example :
    ((alloc_page_extended 4096 8192 started).0 ≡ kernel_extended_start)
    × ((alloc_page_extended 4096 12288 (alloc_page_extended 4096 8192 started).1).0
        ≡ kernel_extended_start)
unfolding get_page_from_bitmap
alloc_page_extended_repeats_example = alloc_page_extended_repeats 4096 8192 4096 12288 started refl

init_memory_manager_lem_example :
    let r = init_memory_manager 0xC0400000 0xC0401000 started in
    ((i : ℕ)
      → i < 4096
      → ((r.table (heap_pte 0xC0401000 i)).present ≡ 1)
        × ((r.table (heap_pte 0xC0401000 i)).page_phys_addr ≡ 4096 + i))
    × ((i : ℕ)
        → i < 4096
        → ((r.directory (heap_pde 0xC0400000 i)).present ≡ 1)
          × ((r.directory (heap_pde 0xC0400000 i)).page_table_addr ≡ heap_table 0xC0401000 i))
    × ((b : ℕ)
        → 4096 ≤ page b
        → get_page_from_bitmap pages_bitmap b r
          ≡ (if ltb (page b) 8192 then 1 else get_page_from_bitmap pages_bitmap b started))
    × (r.kernel_pages_operations ≡ 0)
init_memory_manager_lem_example =
    init_memory_manager_lem 0xC0400000 0xC0401000 started started-IsWords
