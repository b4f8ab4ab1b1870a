-- ===== src/Memory/Heap/Kmalloc.antt =====
-- The loop of kmalloc.
use rubi_kernel.Prelude.{
  ℕ, zero, suc, ◌+◌, ◌-◌, ◌^◌, ◌<◌, ◌≡◌, inl, inr, refl, sym, ◌∙◌, subst, true, false, ◌&&◌, List,
  [], ◌∷◌, ◌++◌, length, arith, ltb, leb, ◌==◌, if◌then◌else◌, Bool-cases, u32, Run, ok,
}
use rubi_kernel.Klib.Slist.{null}
use rubi_kernel.Klib.Slist.Chain.{first_or}
use rubi_kernel.Klib.Slist.Valid.{IsList}
use rubi_kernel.Memory.Heap.{
  Kheap, kheap_start_addr, kheap_size, block_end, grow, shrink, kmalloc_from, kmalloc,
}
use rubi_kernel.Memory.Heap.Blocks.{IsHeap}
use rubi_kernel.Memory.Heap.Merge.{snoc_append}
use rubi_kernel.Memory.Heap.Elements.{links_of, data_of, real_of}
use rubi_kernel.Memory.Heap.Pairs.{NoFreePair}
use rubi_kernel.Memory.Heap.Neighbours.{none_before}
use rubi_kernel.Memory.Heap.Extend.{grow_lem}
use rubi_kernel.Memory.Heap.Alloc.{Outcome, append_block_lem, shrink_lem}

module _ (fuel size : ℕ) (s : Kheap) (front : List ℕ) (c : ℕ) (back : List ℕ)
    (list : IsList s (front ++ (c ∷ back))) where
  abbrev later : Run (ℕ × Kheap)
  later = kmalloc_from fuel (first_or null back) size s

  skip_busy : ((s.payload c).is_busy == 0) ≡ false → kmalloc_from (suc fuel) c size s ≡ later
  unfolding kmalloc_from
  skip_busy z =
      rw
        (
          real_of s front c back list,
          data_of s front c back list,
          z,
          (links_of s front c back list).1,
        )
        refl

  stop_fits :
      ((s.payload c).is_busy == 0) ≡ true
      → leb size (s.payload c).size ≡ true
      → kmalloc_from (suc fuel) c size s ≡ shrink c size s
  unfolding kmalloc_from
  stop_fits z f = rw (real_of s front c back list, data_of s front c back list, z, f) refl

  -- A free block that is too small grows when it is the last and there is room.
  past_small :
      NoFreePair s.payload false (front ++ (c ∷ back))
      → ((s.payload c).is_busy == 0) ≡ true
      → leb size (s.payload c).size ≡ false
      → kmalloc_from (suc fuel) c size s ≡ (
          if (first_or null back == null)
            && ltb
                (u32 (block_end (s.payload c) + (size - (s.payload c).size)))
                (kheap_start_addr + kheap_size)
          then ok (grow c (size - (s.payload c).size) s)
          else later)
  unfolding kmalloc_from
  past_small n z f =
      rw
        (
          real_of s front c back list,
          data_of s front c back list,
          (links_of s front c back list).0,
          (links_of s front c back list).1,
          none_before s front c back list n z,
          z,
          f,
        )
        refl

module _ (size end : ℕ) (s : Kheap) (slots : 0 < s.slots) (room : end + size < 2 ^ 32) where
  small_lem :
      (fuel : ℕ) (front : List ℕ) (c : ℕ) (back : List ℕ)
      → IsHeap s (front ++ (c ∷ back)) end
      → NoFreePair s.payload false (front ++ (c ∷ back))
      → ((s.payload c).is_busy == 0) ≡ true
      → leb size (s.payload c).size ≡ false
      → Outcome size s (front ++ (c ∷ back)) end (kmalloc_from fuel (first_or null back) size s)
      → Outcome size s (front ++ (c ∷ back)) end (kmalloc_from (suc fuel) c size s)
  small_lem fuel front c [] h n z f go =
      let step = past_small fuel size s front c [] h.list n z f in
      elim (Bool-cases (
        ltb (u32 (block_end (s.payload c) + (size - (s.payload c).size)))
          (kheap_start_addr + kheap_size))) [
            | inl e ↦
                subst (λ o. Outcome size s (front ++ (c ∷ [])) end o) (sym (step ∙ (rw e refl)))
                  (inl (grow_lem s front c size end h n z (ground arith) room))
            | inr e ↦
                subst (λ o. Outcome size s (front ++ (c ∷ [])) end o) (sym (step ∙ (rw e refl))) go
          ]
  small_lem fuel front c (w ∷ ws) h n z f go =
      let split = subst (λ l. IsList s l) (sym (snoc_append front c (w ∷ ws))) h.list in
      let real = real_of s (front ++ (c ∷ [])) w ws split in
      let step = past_small fuel size s front c (w ∷ ws) h.list n z f in
      subst (λ o. Outcome size s (front ++ (c ∷ w ∷ ws)) end o) (sym (step ∙ (rw real refl))) go

  kmalloc_from_lem :
      (fuel : ℕ) (front rest : List ℕ)
      → IsHeap s (front ++ rest) end
      → NoFreePair s.payload false (front ++ rest)
      → length rest < fuel
      → Outcome size s (front ++ rest) end (kmalloc_from fuel (first_or null rest) size s)
  unfolding kmalloc_from
  kmalloc_from_lem zero front rest h n b = absurd (omega arith)
  kmalloc_from_lem (suc fuel) front [] h n b =
      append_block_lem s (front ++ []) end size h n slots room
  kmalloc_from_lem (suc fuel) front (c ∷ back) h n b =
      let shift = snoc_append front c back in
      let go : Outcome size s (front ++ (c ∷ back)) end
          (kmalloc_from fuel (first_or null back) size s) =
        subst (λ l. Outcome size s l end (kmalloc_from fuel (first_or null back) size s)) shift
          (kmalloc_from_lem fuel (front ++ (c ∷ [])) back
            (subst (λ l. IsHeap s l end) (sym shift) h)
            (subst (λ l. NoFreePair s.payload false l) (sym shift) n) (omega arith)) in
      elim (Bool-cases ((s.payload c).is_busy == 0)) [
        | inr z ↦
            subst (λ o. Outcome size s (front ++ (c ∷ back)) end o)
              (sym (skip_busy fuel size s front c back h.list z)) go
        | inl z ↦ elim (Bool-cases (leb size (s.payload c).size)) [
          | inl f ↦
              subst (λ o. Outcome size s (front ++ (c ∷ back)) end o)
                (sym (stop_fits fuel size s front c back h.list z f))
                (shrink_lem s front c back size end h n z (ground arith) slots)
          | inr f ↦ small_lem fuel front c back h n z f go
        ]
      ]

-- On a heap of fewer blocks than the fuel, with no two free blocks side by side, and a size that added to the
-- end of the blocks does not wrap, `kmalloc` ends in one of three ways. It gives out a block of exactly the
-- size, no other busy block moves or changes its size, and the heap is again one with no two free
-- blocks side by side. Or the blocks reach the end of the heap, and it returns NULL and changes nothing. Or
-- every slot of the list is in use, and it faults.
pub kmalloc_lem :
    (fuel size end : ℕ) (s : Kheap) (xs : List ℕ)
    → IsHeap s xs end
    → NoFreePair s.payload false xs
    → 0 < s.slots
    → end + size < 2 ^ 32
    → length xs < fuel
    → Outcome size s xs end (kmalloc fuel size s)
unfolding kmalloc
kmalloc_lem fuel size end s xs h n slots room b =
    subst (λ c. Outcome size s xs end (kmalloc_from fuel c size s)) (sym h.list.head_eq)
      (kmalloc_from_lem size end s slots room fuel [] xs h n b)
