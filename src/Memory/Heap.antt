-- ===== src/Memory/Heap.antt =====
-- kernel/src/kernel/memory/heap.c: kmalloc and kfree. The blocks of the heap are the elements of a static
-- list, in the order of their addresses; each slot of the list carries an entry for its block. Sizes and
-- addresses are 32-bit numbers. A write through NULL is `fault`.
pub mod Blocks
pub mod Merge
pub mod Elements
pub mod Idle
pub mod Release
pub mod Free
pub mod Pairs
pub mod Neighbours
pub mod Take
pub mod Extend
pub mod Alloc
pub mod Kmalloc
pub mod Aligned
pub mod Tests
use rubi_kernel.Prelude.{
  ℕ, Option, zero, suc, ◌+◌, ◌-◌, ◌*◌, ◌%◌, ◌^◌, Bool, true, false, not, ◌&&◌, ◌||◌, ltb, leb, ◌==◌,
  if◌then◌else◌, none, some, u32, update, Run, ok, fault, out_of_fuel, ◌>>=◌,
}
use rubi_kernel.Memory.Layout.{table_size, kernel_lower_tables, virt}
use rubi_kernel.Klib.Text.{Mem, read32, write32}
use rubi_kernel.Klib.Slist.{null, Slist, insert_after, delete}

pub record KheapEntry : Type 0 where
  pub addr : ℕ
  pub size : ℕ
  pub is_busy : ℕ

abbrev pub no_entry : KheapEntry
no_entry = record { addr = 0; size = 0; is_busy = 0 }

abbrev pub Kheap : Type 0
Kheap = Slist KheapEntry

abbrev pub kheap_start_addr : ℕ
kheap_start_addr = virt (table_size * kernel_lower_tables)

abbrev pub kheap_size : ℕ
kheap_size = 2 * table_size

abbrev pub sub32 : ℕ → ℕ → ℕ
sub32 a b = u32 (a + 2 ^ 32 - b)

abbrev pub set_entry : ℕ → KheapEntry → Kheap → Kheap
set_entry p e s = record s { payload = update s.payload p e }

abbrev pub mark : (p busy : ℕ) → Kheap → Kheap
mark p busy s = set_entry p (record (s.payload p) { is_busy = busy }) s

abbrev pub is_free : ℕ → Kheap → Bool
is_free p s = (s.payload p).is_busy == 0

-- the end of a block
abbrev pub block_end : KheapEntry → ℕ
block_end e = u32 (e.addr + e.size)

-- The block at `cur` takes `diff` bytes from the free block before it.
unfoldable pub steal_left : (cur diff : ℕ) → Kheap → ℕ × Kheap
steal_left cur diff s =
    let prev = (s.node cur).prev in
    let p = (s.node prev).data_ptr in
    let c = (s.node cur).data_ptr in
    let left = sub32 (s.payload p).size diff in
    let s1 = set_entry p (record (s.payload p) { size = left }) s in
    let e = s1.payload c in
    let s2 = set_entry c (record e { addr = sub32 e.addr diff; size = u32 (e.size + diff) }) s1 in
    let s3 = if left == 0 then delete no_entry prev s2 else s2 in
    let s4 = mark c 1 s3 in ((s4.payload c).addr, s4)

-- The last block takes `diff` bytes more.
unfoldable pub grow : (cur diff : ℕ) → Kheap → ℕ × Kheap
grow cur diff s =
    let c = (s.node cur).data_ptr in
    let e = s.payload c in
    (e.addr, set_entry c (record e { size = u32 (e.size + diff); is_busy = 1 }) s)

-- What is left of the block becomes the new block at `new`.
unfoldable pub cut_off : (c new diff : ℕ) → Kheap → Run (ℕ × Kheap)
cut_off c new diff s =
    let n = (s.node new).data_ptr in
    let e : KheapEntry = record (s.payload c) { size = sub32 (s.payload c).size diff } in
    let rest : KheapEntry = record { is_busy = 0; addr = block_end e; size = diff } in
    if new == null
    then fault
    else if n == null
    then ok (e.addr, s)
    else ok (e.addr, set_entry n rest (set_entry c e s))

-- The free block after it takes what the block has too much.
unfoldable pub give_right : (c n diff : ℕ) → Kheap → ℕ × Kheap
give_right c n diff s =
    let s1 = set_entry c (record (s.payload c) { size = sub32 (s.payload c).size diff }) s in
    let e = s1.payload n in
    (
      (s1.payload c).addr,
      set_entry n (record e { addr = sub32 e.addr diff; size = u32 (e.size + diff) }) s1,
    )

-- the same for the result of slist_insert_after
unfoldable pub cut_new : (c diff : ℕ) → Option (ℕ × Kheap) → Run (ℕ × Kheap)
cut_new c diff none = fault
cut_new c diff (some r) = cut_off c r.0 diff r.1

-- A free block that is large enough is taken.
unfoldable pub shrink : (cur size : ℕ) → Kheap → Run (ℕ × Kheap)
shrink cur size s =
    let c = (s.node cur).data_ptr in
    let next = (s.node cur).next in
    let n = (s.node next).data_ptr in
    let s1 = mark c 1 s in
    let diff = (s1.payload c).size - size in
    if not (next == null) && is_free n s1
    then ok (give_right c n diff s1)
    else cut_new c diff (insert_after no_entry cur s1)

-- A new block behind the last one; its size is not compared with the end of the heap.
unfoldable pub new_block : (at size : ℕ) → Option (ℕ × Kheap) → Run (ℕ × Kheap)
new_block at size none = fault
new_block at size (some r) =
    let entry : KheapEntry = record { is_busy = 1; addr = at; size = size } in
    if r.0 == null then fault else ok (at, set_entry (r.1.node r.0).data_ptr entry r.1)

unfoldable pub append_block : (size : ℕ) → Kheap → Run (ℕ × Kheap)
append_block size s =
    let at =
      if s.tail == null then kheap_start_addr else block_end (s.payload (s.node s.tail).data_ptr) in
    if leb (kheap_start_addr + kheap_size) at
    then ok (0, s)
    else new_block at size (insert_after no_entry s.tail s)

-- the loop of kmalloc from the element `cur` on
unfoldable pub kmalloc_from : (fuel cur size : ℕ) → Kheap → Run (ℕ × Kheap)
kmalloc_from zero cur size s = out_of_fuel
kmalloc_from (suc fuel) cur size s =
    let e = s.payload (s.node cur).data_ptr in
    let prev = (s.node cur).prev in
    let diff = size - e.size in
    let rest = kmalloc_from fuel (s.node cur).next size s in
    if cur == null
    then append_block size s
    else if not (e.is_busy == 0)
    then rest
    else if leb size e.size
    then shrink cur size s
    else if not (prev == null) && is_free (s.node prev).data_ptr s
    then ok (steal_left cur diff s)
    else if ((s.node cur).next == null)
        && ltb (u32 (block_end e + diff)) (kheap_start_addr + kheap_size)
    then ok (grow cur diff s)
    else rest

unfoldable pub kmalloc : (fuel size : ℕ) → Kheap → Run (ℕ × Kheap)
kmalloc fuel size s = kmalloc_from fuel s.head size s

-- The block of the entry `a` takes over the block of the entry `b`, whose slot `pos` is given back.
unfoldable pub merge : (a b pos : ℕ) → Kheap → Kheap
merge a b pos s =
    delete no_entry pos (
      set_entry a (record (s.payload a) { size = u32 ((s.payload a).size + (s.payload b).size) }) s)

-- the last step of a release: the merge with the block after it
unfoldable pub merge_right : (c next n : ℕ) → Kheap → Kheap
merge_right c next n s = if not (next == null) && is_free n s then merge c n n s else s

unfoldable pub release : (cur : ℕ) → Kheap → Kheap
release cur s =
    let c = (s.node cur).data_ptr in
    let prev = (s.node cur).prev in
    let next = (s.node cur).next in
    let p = (s.node prev).data_ptr in
    let n = (s.node next).data_ptr in
    let s1 = mark c 0 s in
    if not (prev == null) && is_free p s1
    then merge_right p next n (merge p c cur s1)
    else merge_right c next n s1

-- the loop of kfree from the element `cur` on
unfoldable pub kfree_from : (fuel cur ptr : ℕ) → Kheap → Run Kheap
kfree_from zero cur ptr s = out_of_fuel
kfree_from (suc fuel) cur ptr s =
    let e = s.payload (s.node cur).data_ptr in
    let rest = kfree_from fuel (s.node cur).next ptr s in
    if cur == null
    then ok s
    else if not (e.is_busy == 0) && (e.addr == ptr)
    then ok (release cur s)
    else rest

unfoldable pub kfree : (fuel ptr : ℕ) → Kheap → Run Kheap
kfree fuel ptr s = kfree_from fuel s.head ptr s

-- The address of the block is stored in front of the aligned one. `% 0` is a fault of the processor.
unfoldable pub align_block : (p align : ℕ) → Mem → Run (ℕ × Mem)
align_block p align m =
    let addr = u32 (p + align + 4) in
    let ptr = addr - addr % align in
    if p == 0
    then ok (0, m)
    else if align == 0
    then fault
    else ok (ptr, write32 m (u32 (ptr + 2 ^ 32 - 4)) p)

unfoldable pub kmalloc_a : (fuel count align : ℕ) → Mem → Kheap → Run (ℕ × Mem × Kheap)
kmalloc_a fuel count align m s = do
  (p, s1) ← kmalloc fuel (u32 (count + align + 4)) s
  (ptr, m1) ← align_block p align m
  ok (ptr, m1, s1)

unfoldable pub kfree_a : (fuel ptr : ℕ) → Mem → Kheap → Run Kheap
kfree_a fuel ptr m s = kfree fuel (read32 m (u32 (ptr + 2 ^ 32 - 4))) s
