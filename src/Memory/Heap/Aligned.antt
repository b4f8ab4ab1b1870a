-- ===== src/Memory/Heap/Aligned.antt =====
-- Aligned blocks.
use rubi_kernel.Prelude.{
  ℕ, ◌+◌, ◌-◌, ◌*◌, ◌/◌, ◌%◌, ◌^◌, ◌≤◌, ◌<◌, ◌≡◌, ◌≢◌, ◌⊎◌, inl, inr, refl, ap, subst, true, false,
  List, [], ◌∷◌, ◌++◌, length, Bool-cases, arith, ◌==◌, u32, Run, ok, fault,
}
use native.Mathlib.Nat.{mod-lt, div-add-mod'}
use rubi_kernel.Klib.Text.{Mem, write32}
use rubi_kernel.Klib.Text.Words.{read32-write32}
use rubi_kernel.Klib.Slist.{slot_at}
use rubi_kernel.Klib.Slist.Chain.{has}
use rubi_kernel.Memory.Heap.{
  Kheap, kheap_start_addr, kheap_size, kmalloc, kfree, align_block, kmalloc_a, kfree_a,
}
use rubi_kernel.Memory.Heap.Blocks.{Entries, Tiles, busy_blocks, IsHeap, Tiles-le}
use rubi_kernel.Memory.Heap.Pairs.{NoFreePair}
use rubi_kernel.Memory.Heap.Take.{Allocated}
use rubi_kernel.Memory.Heap.Kmalloc.{kmalloc_lem}

-- An aligned block: a multiple of the alignment, in the block at `p` with the address of that block in front
-- of it, from which kfree_a finds the block.
pub record AlignedBlock (p count align : ℕ) (m : Mem) (s : Kheap) (out : Run (ℕ × Mem × Kheap))
    : Type 0 where
  pub ptr : ℕ
  pub memory : Mem
  pub multiple : ℕ
  pub result : out ≡ ok (ptr, memory, s)
  pub aligned : ptr ≡ multiple * align
  pub header : p + 4 ≤ ptr
  pub fits : ptr + count ≤ p + (count + align + 4)
  pub released : (fuel : ℕ) (t : Kheap) → kfree_a fuel ptr memory t ≡ kfree fuel p t

-- When `kmalloc` of the size with room for the alignment, which does not wrap, gives out the block at `p`, and
-- the block does not wrap, `kmalloc_a` returns an aligned block in it.
pub aligned_in_block :
    (fuel count align p : ℕ) (m : Mem) (s t : Kheap)
    → align ≢ 0
    → count + align + 4 < 2 ^ 32
    → kmalloc fuel (count + align + 4) s ≡ ok (p, t)
    → p ≢ 0
    → p + align + 4 < 2 ^ 32
    → AlignedBlock p count align m t (kmalloc_a fuel count align m s)
unfolding kmalloc_a align_block kfree_a
aligned_in_block fuel count align p m s t a small e n room =
    let addr = p + align + 4 in
    let asked : u32 (count + align + 4) ≡ count + align + 4 = omega arith in
    let whole : u32 addr ≡ addr = omega arith in
    let live : (p == 0) ≡ false = ground arith in
    let real : (align == 0) ≡ false = ground arith in
    let below : addr % align < align = mod-lt addr (omega arith) in
    let ptr = addr - addr % align in
    let multiple : ptr ≡ addr / align * align = omega (arith, div-add-mod' addr align) in
    record {
      ptr = ptr;
      memory = write32 m (u32 (ptr + 2 ^ 32 - 4)) p;
      multiple = addr / align;
      result = rw (asked, e, whole, live, real) refl;
      aligned = multiple;
      header = omega (arith, below);
      fits = omega (arith, below);
      released = λ fuel' t'.
          ap (λ q. kfree fuel' q t') (read32-write32 m (u32 (ptr + 2 ^ 32 - 4)) p (omega arith));
    }

-- each of the blocks lies between the two addresses
AllWithin : (lo hi : ℕ) → List (ℕ × ℕ) → Type 0
AllWithin lo hi [] = Unit {0}
AllWithin lo hi (b ∷ bs) = (lo ≤ b.0) × (b.0 + b.1 ≤ hi) × AllWithin lo hi bs

busy_blocks-AllWithin :
    (p : Entries) (lo a : ℕ) (xs : List ℕ) (end : ℕ)
    → lo ≤ a
    → Tiles p a xs end
    → AllWithin lo end (busy_blocks p xs)
unfolding AllWithin
busy_blocks-AllWithin p lo a [] end l t = tt
busy_blocks-AllWithin p lo a (x ∷ xs) end l t =
    let ih = busy_blocks-AllWithin p lo (a + (p x).size) xs end (omega arith) t.1 in
    elim (Bool-cases ((p x).is_busy == 0)) [
      | inl e ↦ rw e ih
      | inr e ↦
          rw e (omega (arith, t.0), omega (arith, t.0, Tiles-le p (a + (p x).size) xs end t.1), ih)
    ]

middle_within :
    (lo hi : ℕ) (before after : List (ℕ × ℕ)) (b : ℕ × ℕ)
    → AllWithin lo hi (before ++ (b ∷ after))
    → (lo ≤ b.0) × (b.0 + b.1 ≤ hi)
unfolding AllWithin
middle_within lo hi [] after b w = (w.0, w.1)
middle_within lo hi (c ∷ before) after b w = middle_within lo hi before after b w.2

-- an aligned block in a block that kmalloc gave
pub record AlignedIn (fuel count align : ℕ) (m : Mem) (s : Kheap) (xs : List ℕ) (end : ℕ)
    : Type 0 where
  pub block : Allocated (count + align + 4) s xs end (kmalloc fuel (count + align + 4) s)
  pub inner : AlignedBlock block.address count align m block.state (kmalloc_a fuel count align m s)

-- An aligned block is given out; or NULL is returned and nothing changes, since the blocks reach the end of
-- the heap; or every slot of the list is in use.
abbrev pub AlignedOutcome : (fuel count align : ℕ) → Mem → Kheap → List ℕ → (end : ℕ) → Type 0
AlignedOutcome fuel count align m s xs end =
    AlignedIn fuel count align m s xs end
    ⊎ (((kmalloc_a fuel count align m s ≡ ok (0, m, s)) × (kheap_start_addr + kheap_size ≤ end))
        ⊎ ((kmalloc_a fuel count align m s ≡ fault)
            × ((i : ℕ) → i < s.slots → has (slot_at s i) xs ≡ true)))

module _ (fuel count align end : ℕ) (m : Mem) (s : Kheap) (xs : List ℕ) (a : align ≢ 0)
    (room : end + (count + align + 4) < 2 ^ 32) where
  asked : u32 (count + align + 4) ≡ count + align + 4
  asked = omega arith

  in_block :
      Allocated (count + align + 4) s xs end (kmalloc fuel (count + align + 4) s)
      → AlignedIn fuel count align m s xs end
  in_block k =
      let w =
        middle_within kheap_start_addr k.top k.before k.after (k.address, count + align + 4)
          (subst (λ l. AllWithin kheap_start_addr k.top l) k.now
            (busy_blocks-AllWithin k.state.payload kheap_start_addr kheap_start_addr k.elements
              k.top (omega arith) k.heap.tiles)) in
      record {
        block = k;
        inner =
            aligned_in_block fuel count align k.address m s k.state a (omega arith) k.result
              (omega (arith, w.0)) (omega (arith, w.1, k.heap.bound));
      }

  no_block :
      kmalloc fuel (count + align + 4) s ≡ ok (0, s) → kmalloc_a fuel count align m s ≡ ok (0, m, s)
  unfolding kmalloc_a align_block
  no_block e = rw (asked, e) refl

  faults : kmalloc fuel (count + align + 4) s ≡ fault → kmalloc_a fuel count align m s ≡ fault
  unfolding kmalloc_a
  faults e = rw (asked, e) refl

-- On a heap of fewer blocks than the fuel, with no two free blocks side by side, an alignment that is not 0, and
-- a size that with the room for the alignment, added to the end of the blocks, does not wrap, `kmalloc_a`
-- ends in one of three ways. It returns a multiple of the alignment such that the bytes asked for, and 4 bytes
-- in front of them, lie in the block that `kmalloc` of the size with that room gave, and `kfree_a` of it is
-- `kfree` of the block. Or the blocks reach the end of the heap, and it returns NULL and changes nothing. Or
-- every slot of the list is in use, and it faults.
pub kmalloc_a_lem :
    (fuel count align end : ℕ) (m : Mem) (s : Kheap) (xs : List ℕ)
    → IsHeap s xs end
    → NoFreePair s.payload false xs
    → 0 < s.slots
    → align ≢ 0
    → end + (count + align + 4) < 2 ^ 32
    → length xs < fuel
    → AlignedOutcome fuel count align m s xs end
kmalloc_a_lem fuel count align end m s xs h n slots a room b =
    elim (kmalloc_lem fuel (count + align + 4) end s xs h n slots room b) [
      | inl k ↦ inl (in_block fuel count align end m s xs a room k)
      | inr (inl k) ↦ inr (inl (no_block fuel count align end m s xs a room k.0, k.1))
      | inr (inr k) ↦ inr (inr (faults fuel count align end m s xs a room k.0, k.1))
    ]
