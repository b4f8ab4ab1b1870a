-- ===== src/Memory/Heap/Extend.antt =====
-- At the end of the heap: the last block grows, or a new block is put behind it.
use rubi_kernel.Prelude.{
  ℕ, ◌+◌, ◌-◌, ◌^◌, ◌≤◌, ◌<◌, ◌≡◌, refl, sym, ap, ◌∙◌, true, false, List, [], ◌∷◌, ◌++◌, arith,
  ◌==◌, ==_iff, ==_refl, u32, ok,
}
use rubi_kernel.Klib.Slist.Chain.{has, Distinct-append}
use rubi_kernel.Klib.Slist.Valid.{IsList}
use rubi_kernel.Klib.Slist.Payload.{IsList-payload}
use rubi_kernel.Memory.Heap.{KheapEntry, Kheap, kheap_start_addr, set_entry, grow}
use rubi_kernel.Memory.Heap.Blocks.{
  Tiles, reach, busy_blocks, IsHeap, Tiles-append, Tiles-join, busy_blocks-append, Tiles-frame,
  busy_blocks_frame,
}
use rubi_kernel.Memory.Heap.Elements.{data_of}
use rubi_kernel.Memory.Heap.Pairs.{
  NoFreePair, last_free, NoFreePair-append, NoFreePair_join, NoFreePair_frame,
}
use rubi_kernel.Memory.Heap.Take.{Allocated}

pub append_nil {ℓ} : {A : Type ℓ} (xs : List A) → xs ≡ xs ++ []
append_nil [] = refl
append_nil (x ∷ xs) = ap (λ l. x ∷ l) (append_nil xs)

-- A busy block at the end of the heap, behind blocks that are kept.
module _ (s t : Kheap) (front : List ℕ) (e size : ℕ) (list : IsList t (front ++ (e ∷ [])))
    (tiles : Tiles s.payload kheap_start_addr front (reach s.payload kheap_start_addr front))
    (pairs : NoFreePair s.payload false front)
    (same : (z : ℕ) → has z front ≡ true → t.payload z ≡ s.payload z)
    (here : t.payload e
      ≡ record { is_busy = 1; addr = reach s.payload kheap_start_addr front; size = size })
    (room : reach s.payload kheap_start_addr front + size < 2 ^ 32) where
  abbrev at : ℕ
  at = reach s.payload kheap_start_addr front

  last-Tiles : Tiles t.payload kheap_start_addr (front ++ (e ∷ [])) (at + size)
  last-Tiles =
      let first = Tiles-frame s.payload t.payload kheap_start_addr front at same tiles in
      let mid : Tiles t.payload at (e ∷ []) (at + size) = rw here (refl, refl) in
      Tiles-join t.payload kheap_start_addr front (e ∷ []) at (at + size) first mid

  last_pairs : NoFreePair t.payload false (front ++ (e ∷ []))
  last_pairs =
      let mid : NoFreePair t.payload (last_free t.payload false front) (e ∷ []) =
        rw here (ground arith, tt) in
      NoFreePair_join t.payload false front (e ∷ [])
        (NoFreePair_frame s.payload t.payload false front same pairs) mid

  pub last_lem :
      (xs : List ℕ) (end : ℕ)
      → busy_blocks s.payload xs ≡ busy_blocks s.payload front
      → end ≤ at + size
      → Allocated size s xs end (ok (at, t))
  last_lem xs end was le = record {
    address = at;
    state = t;
    elements = front ++ (e ∷ []);
    top = at + size;
    before = busy_blocks s.payload front;
    after = [];
    result = refl;
    heap = record { list = list; tiles = last-Tiles; bound = room };
    pairs = last_pairs;
    was = was ∙ append_nil (busy_blocks s.payload front);
    now =
        rw
          (
            busy_blocks-append t.payload front (e ∷ []),
            here,
            busy_blocks_frame s.payload t.payload front same,
          )
          refl;
    higher = le;
  }

-- The last block, which is free and too small, grows to the size.
pub grow_lem :
    (s : Kheap) (front : List ℕ) (c size end : ℕ)
    → IsHeap s (front ++ (c ∷ [])) end
    → NoFreePair s.payload false (front ++ (c ∷ []))
    → ((s.payload c).is_busy == 0) ≡ true
    → (s.payload c).size ≤ size
    → end + size < 2 ^ 32
    → Allocated size s (front ++ (c ∷ [])) end (ok (grow c (size - (s.payload c).size) s))
unfolding grow
grow_lem s front c size end h n free small room =
    let at = reach s.payload kheap_start_addr front in
    let t = Tiles-append s.payload kheap_start_addr front (c ∷ []) end h.tiles in
    let old = NoFreePair-append s.payload false front (c ∷ []) n in
    let apart = Distinct-append front (c ∷ []) h.list.distinct in
    let bigger : KheapEntry = record { is_busy = 1; addr = at; size = size } in
    let after = set_entry c bigger s in
    let ends : at + (s.payload c).size ≡ end = t.1.1 in
    let sum : u32 ((s.payload c).size + (size - (s.payload c).size)) ≡ size = omega arith in
    let same : (z : ℕ) → has z front ≡ true → after.payload z ≡ s.payload z = λ z i.
      let out = apart.2 z i in
      let away : (c == z) ≡ false = ground (arith, ==_iff c z, ==_iff z c) in rw away refl in
    let was : busy_blocks s.payload (front ++ (c ∷ [])) ≡ busy_blocks s.payload front =
      rw (busy_blocks-append s.payload front (c ∷ []), free)
        (sym (append_nil (busy_blocks s.payload front))) in
    let made =
      last_lem s after front c size (IsList-payload s after.payload (front ++ (c ∷ [])) h.list) t.0
        old.0 same (rw (==_refl c) refl) (omega arith) (front ++ (c ∷ [])) end was (omega arith) in
    rw (data_of s front c [] h.list, sum, t.1.0) made
