-- ===== src/Memory/Tables/Tests.antt =====
-- A table in the heap with no blocks, and one that is not freed.
use rubi_kernel.Prelude.{ℕ, ◌≡◌, refl, Run, ok, fault, out_of_fuel}
use rubi_kernel.Klib.Slist.{zero_node, insert_after, find_slot}
use rubi_kernel.Memory.Heap.{
  no_entry, Kheap, kheap_start_addr, kmalloc_from, kmalloc, append_block, new_block,
}

abbrev empty_heap : Kheap
empty_heap = record {
  base = 100;
  slots = 3;
  slot_size = 20;
  head = 0;
  tail = 0;
  node = λ a. zero_node;
  payload = λ a. no_entry;
}

abbrev state_of : Run (ℕ × Kheap) → Kheap
state_of (ok r) = r.1
state_of fault = empty_heap
state_of out_of_fuel = empty_heap

abbrev with_block : Kheap
with_block = state_of (kmalloc 1 8196 empty_heap)

first_block : kmalloc 1 8196 empty_heap ≡ ok (kheap_start_addr, with_block)
unfolding kmalloc kmalloc_from append_block new_block insert_after find_slot
first_block = refl
