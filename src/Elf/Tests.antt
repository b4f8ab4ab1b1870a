-- ===== src/Elf/Tests.antt =====
-- A file at 3000 with one segment of one byte that the file has nothing of; its program header lies over the
-- file's. The heap is empty, and `store` counts the bytes that are stored.
use rubi_kernel.Prelude.{
  ℕ, ◌+◌, ◌<◌, ◌≡◌, ◌≢◌, ◌∙◌, refl, inl, inr, [], ◌∷◌, ◌==◌, if◌then◌else◌, for_range, u32, Run, ok,
  arith,
}
use rubi_kernel.Klib.Text.{Mem, memcpy, memset, read32, write32, strlen, strlen_from}
use rubi_kernel.Klib.Text.Memory.{memset_lem, memcpy_lem}
use rubi_kernel.Klib.Text.Words.{read32_apart}
use rubi_kernel.Klib.Slist.{insert_after, insert_after_at, set_ends_after, link_in, find_slot}
use rubi_kernel.Klib.Clist.Tests.{ring-RingAt}
use rubi_kernel.Klib.Clist.Ring.{IsRing}
use rubi_kernel.Memory.Heap.{
  Kheap, kheap_start_addr, kmalloc, kmalloc_from, append_block, new_block, kmalloc_a, align_block,
}
use rubi_kernel.Memory.Heap.Tests.{no_blocks, state_of}
use rubi_kernel.Memory.Mmu.{Mmu}
use rubi_kernel.Memory.Tables.{create_page_directory, create_page_table}
use rubi_kernel.Sched.{task_running}
use rubi_kernel.Sched.Tests.{three}
use rubi_kernel.Sched.Life.{Machine, task_size, task_kstack_size, task_ustack_size}
use rubi_kernel.Sched.Switch.Tests.{machine}
use rubi_kernel.Elf.{
  Loader, e_entry, e_phnum, p_vaddr, p_memsz, p_filesz, header_at, new_loader, add_page,
  store_bytes, fill_segment, load_segment, load_segments, elf_exec,
}
use rubi_kernel.Elf.Loaded.{elf_exec-IsRing}

abbrev file : Mem
file a = if a == 3044 then 1 else if a == 3020 then 1 else 0

abbrev start : Machine
start = record (machine three) { heap = record no_blocks { slots = 8 }; mem = file }

abbrev heap1 : Kheap
heap1 = state_of (kmalloc 7 8196 start.heap)

abbrev heap2 : Kheap
heap2 = state_of (kmalloc 7 4228 heap1)

abbrev heap3 : Kheap
heap3 = state_of (kmalloc 7 128 heap2)

abbrev heap4 : Kheap
heap4 = state_of (kmalloc 7 task_size heap3)

abbrev heap5 : Kheap
heap5 = state_of (kmalloc 7 task_kstack_size heap4)

abbrev heap6 : Kheap
heap6 = state_of (kmalloc 7 task_ustack_size heap5)

block1 : kmalloc 7 8196 start.heap ≡ ok (kheap_start_addr, heap1)
unfolding kmalloc kmalloc_from append_block new_block insert_after find_slot insert_after_at
    set_ends_after link_in
block1 = refl

block2 : kmalloc 7 4228 heap1 ≡ ok (kheap_start_addr + 8196, heap2)
unfolding kmalloc kmalloc_from append_block new_block insert_after find_slot insert_after_at
    set_ends_after link_in
block2 = refl

block3 : kmalloc 7 128 heap2 ≡ ok (kheap_start_addr + 12424, heap3)
unfolding kmalloc kmalloc_from append_block new_block insert_after find_slot insert_after_at
    set_ends_after link_in
block3 = refl

block4 : kmalloc 7 task_size heap3 ≡ ok (kheap_start_addr + 12552, heap4)
unfolding kmalloc kmalloc_from append_block new_block insert_after find_slot insert_after_at
    set_ends_after link_in
block4 = refl

block5 : kmalloc 7 task_kstack_size heap4 ≡ ok (kheap_start_addr + 12788, heap5)
unfolding kmalloc kmalloc_from append_block new_block insert_after find_slot insert_after_at
    set_ends_after link_in
block5 = refl

block6 : kmalloc 7 task_ustack_size heap5 ≡ ok (kheap_start_addr + 13812, heap6)
unfolding kmalloc kmalloc_from append_block new_block insert_after find_slot insert_after_at
    set_ends_after link_in
block6 = refl

abbrev mem1 : Mem
mem1 = memcpy 0xC1001000 5000 4096 (write32 file 0xC1000FFC 0xC1000000)

abbrev mem2 : Mem
mem2 = memset 0xC1003000 0 128 (write32 mem1 0xC1002FFC 0xC1002004)

directory_made : create_page_directory 7 5000 file start.heap ≡ ok (0xC1001000, mem1, heap1)
unfolding create_page_directory kmalloc_a align_block
directory_made = rw block1 refl

table_made : create_page_table 7 32 mem1 heap1 ≡ ok (0xC1003000, mem2, heap2)
unfolding create_page_table kmalloc_a align_block
table_made = rw block2 refl

-- the file is below the heap, where nothing was written
low_byte : (a : ℕ) → a < 4000 → mem2 a ≡ file a
low_byte a h =
    let word2 : write32 mem1 0xC1002FFC 0xC1002004 a ≡ mem1 a = ground arith in
    let word1 : write32 file 0xC1000FFC 0xC1000000 a ≡ file a = ground arith in
    let set = memset_lem 0xC1003000 0 128 (write32 mem1 0xC1002FFC 0xC1002004) a in
    let copied =
      memcpy_lem 0xC1001000 5000 4096 (write32 file 0xC1000FFC 0xC1000000) a (inr (omega arith)) in
    ground (arith, set, copied, word1, word2)

low_word : (a : ℕ) → a < 3990 → read32 mem2 a ≡ read32 file a
low_word a h = omega (
  arith,
  low_byte a (omega arith),
  low_byte (a + 1) (omega arith),
  low_byte (a + 2) (omega arith),
  low_byte (a + 3) (omega arith),
)

one_segment : e_phnum mem2 3000 ≡ 1
one_segment = rw (low_byte 3044 (omega arith), low_byte 3045 (omega arith)) refl

header_here : header_at mem2 3000 0 ≡ 3000
header_here =
    rw (low_word 3028 (omega arith), low_byte 3042 (omega arith), low_byte 3043 (omega arith)) refl

abbrev begin : Loader ℕ
begin = new_loader 0xC1001000 0xC1003000 0xC1003088 mem2 heap3 start 0

abbrev with_page : Loader ℕ
with_page = for_range 1 0 (add_page 3000) begin

abbrev store : Mmu → (page_dir addr byte : ℕ) → ℕ → Run ℕ
store mmu page_dir addr byte w = ok (w + 1)

page_array : (a : ℕ) → a < 3990 → read32 with_page.machine.mem a ≡ read32 file a
unfolding for_range add_page new_loader
page_array a h =
    read32_apart mem2 a 0xC1003088 (u32 (p_vaddr mem2 3000 + 0)) (inl (omega arith)) ∙ low_word a h

abbrev loaded : Loader ℕ
loaded = record with_page { world = with_page.world + 1 }

segment_loaded : load_segments store (e_phnum mem2 3000) 3000 0 begin ≡ ok loaded
unfolding load_segments load_segment fill_segment store_bytes new_loader
segment_loaded =
    let size : p_memsz mem2 3000 ≡ 1 = low_word 3020 (omega arith) in
    let in_file : p_filesz with_page.machine.mem 3000 ≡ 0 = page_array 3016 (omega arith) in
    let in_memory : p_memsz with_page.machine.mem 3000 ≡ 1 = page_array 3020 (omega arith) in
    rw (one_segment, header_here, size, in_file, in_memory) refl

no_name : strlen 7 0 with_page.machine.mem ≡ ok 0
unfolding strlen strlen_from for_range add_page new_loader
no_name = rw (low_byte 0 (omega arith)) refl

elf_exec_runs :
    (l' : Loader ℕ) × (elf_exec store 7 0 3000 0 start 0 ≡ ok (0xC1003108, l'))
    × IsRing l'.machine.tasks.task_list (10 ∷ 20 ∷ 30 ∷ 0xC1003108 ∷ [])
    × ((l'.machine.tasks.task 0xC1003108).status ≡ task_running)
    × ((l'.machine.tasks.task 0xC1003108).op_registers.eip ≡ e_entry file 3000)
    × ((l'.machine.tasks.task 0xC1003108).task_mem ≡ loaded.task_mem)
    × (loaded.task_mem.page_dir ≡ 0xC1001000)
    × ((z : ℕ) → z ≢ 0xC1003108 → l'.machine.tasks.task z ≡ start.tasks.task z)
elf_exec_runs =
    elf_exec-IsRing store 7 0 3000 0 start 0 (10 ∷ 20 ∷ 30 ∷ []) 0xC1001000 0xC1003000 0xC1003088
      0xC1003108 0xC10031F4 0xC10035F4 0 mem1 mem2 heap1 heap2 heap3 heap4 heap5 heap6 loaded
      ring-RingAt (omega arith) directory_made table_made block3 segment_loaded block4 (omega arith)
      refl block5 block6 no_name
