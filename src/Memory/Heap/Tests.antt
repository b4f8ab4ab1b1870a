-- ===== src/Memory/Heap/Tests.antt =====
-- A list of three slots, with a busy block of 64 bytes and a free one of 32 behind it.
use rubi_kernel.Prelude.{
  ℕ, ◌+◌, ◌≡◌, refl, [], ◌∷◌, arith, ◌==◌, if◌then◌else◌, Run, ok, fault, out_of_fuel,
}
use rubi_kernel.Klib.Slist.{zero_node, insert_after, find_slot}
use rubi_kernel.Memory.Heap.{
  no_entry, Kheap, kheap_start_addr, kmalloc_from, kmalloc, append_block, new_block, kfree,
}
use rubi_kernel.Memory.Heap.Blocks.{IsHeap}
use rubi_kernel.Memory.Heap.Alloc.{Outcome}
use rubi_kernel.Memory.Heap.Kmalloc.{kmalloc_lem}
use rubi_kernel.Memory.Heap.Free.{Freed, kfree_lem}
use rubi_kernel.Memory.Heap.Aligned.{AlignedOutcome, kmalloc_a_lem}

abbrev two_blocks : Kheap
two_blocks = record {
  base = 100;
  slots = 3;
  slot_size = 20;
  head = 100;
  tail = 120;
  node = λ a.
      if a == 100
      then record { prev = 0; next = 120; is_valid = 1; data_ptr = 100 }
      else if a == 120
      then record { prev = 100; next = 0; is_valid = 1; data_ptr = 120 }
      else zero_node;
  payload = λ a.
      if a == 100
      then record { addr = kheap_start_addr; size = 64; is_busy = 1 }
      else if a == 120
      then record { addr = kheap_start_addr + 64; size = 32; is_busy = 0 }
      else no_entry;
}

two_blocks-IsHeap : IsHeap two_blocks (100 ∷ 120 ∷ []) (kheap_start_addr + 96)
two_blocks-IsHeap = record {
  list = record {
    chain = (refl, refl, (refl, refl, tt));
    head_eq = refl;
    tail_eq = refl;
    distinct = (refl, (refl, tt));
    non_null = refl;
    live = λ x h. (ground arith, ground arith);
    dead = λ i l h. ground arith;
    based = omega arith;
  };
  tiles = (refl, (refl, refl));
  bound = omega arith;
}

kmalloc_lem_example :
    Outcome 16 two_blocks (100 ∷ 120 ∷ []) (kheap_start_addr + 96) (kmalloc 3 16 two_blocks)
kmalloc_lem_example =
    kmalloc_lem 3 16 (kheap_start_addr + 96) two_blocks (100 ∷ 120 ∷ []) two_blocks-IsHeap
      (refl, (refl, tt)) (omega arith) (omega arith) (omega arith)

kfree_lem_example :
    Freed kheap_start_addr two_blocks
      (100 ∷ 120 ∷ [])
      (kheap_start_addr + 96)
      (kfree 3 kheap_start_addr two_blocks)
kfree_lem_example =
    kfree_lem 3 kheap_start_addr two_blocks (100 ∷ 120 ∷ []) (kheap_start_addr + 96)
      two_blocks-IsHeap (refl, (refl, tt)) (omega arith)

abbrev pub no_blocks : Kheap
no_blocks = record two_blocks { head = 0; tail = 0; node = λ a. zero_node }

abbrev one_block : Kheap
one_block = record two_blocks {
  head = 100;
  tail = 100;
  node = λ a.
      if a == 100 then record { prev = 0; next = 0; is_valid = 1; data_ptr = 100 } else zero_node;
}

-- with every slot in use, kmalloc writes through NULL
no_slot_left : kmalloc 2 8 (record one_block { slots = 1 }) ≡ fault
unfolding kmalloc kmalloc_from append_block new_block insert_after find_slot
no_slot_left = refl

abbrev pub state_of : Run (ℕ × Kheap) → Kheap
state_of (ok r) = r.1
state_of fault = no_blocks
state_of out_of_fuel = no_blocks

abbrev with_block : Kheap
with_block = state_of (kmalloc 1 76 no_blocks)

first_block : kmalloc 1 76 no_blocks ≡ ok (kheap_start_addr, with_block)
unfolding kmalloc kmalloc_from append_block new_block insert_after find_slot
first_block = refl

kmalloc_a_lem_example :
    AlignedOutcome 3 9 8 (λ a. 0) two_blocks (100 ∷ 120 ∷ []) (kheap_start_addr + 96)
kmalloc_a_lem_example =
    kmalloc_a_lem 3 9 8 (kheap_start_addr + 96) (λ a. 0) two_blocks (100 ∷ 120 ∷ [])
      two_blocks-IsHeap (refl, (refl, tt)) (omega arith) (omega arith) (omega arith) (omega arith)
