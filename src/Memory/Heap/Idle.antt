-- ===== src/Memory/Heap/Idle.antt =====
-- A block that is marked free.
use rubi_kernel.Prelude.{
  ℕ, ◌+◌, ◌≡◌, refl, ap, true, false, List, ◌∷◌, ◌++◌, arith, ◌==◌, ==_iff, ==_refl,
}
use rubi_kernel.Klib.Slist.Chain.{has, Distinct-append}
use rubi_kernel.Klib.Slist.Payload.{IsList-payload}
use rubi_kernel.Memory.Heap.{KheapEntry, Kheap, kheap_start_addr, mark}
use rubi_kernel.Memory.Heap.Blocks.{
  Tiles, reach, busy_blocks, IsHeap, Tiles-append, Tiles-join, busy_blocks-append, Tiles-frame,
  busy_blocks_frame,
}
use rubi_kernel.Memory.Heap.Pairs.{
  NoFreePair, NoFreePair-append, NoFreePair_frame, NoFreePair_weaken,
}

module _ (s : Kheap) (front : List ℕ) (c : ℕ) (back : List ℕ) (end : ℕ)
    (h : IsHeap s (front ++ (c ∷ back)) end) where
  abbrev idle : KheapEntry
  idle = record (s.payload c) { is_busy = 0 }

  apart :
      ((z : ℕ) → has z front ≡ true → (mark c 0 s).payload z ≡ s.payload z)
      × ((z : ℕ) → has z back ≡ true → (mark c 0 s).payload z ≡ s.payload z)
  apart =
      let d = Distinct-append front (c ∷ back) h.list.distinct in
      (
        (λ z i.
            let out = d.2 z i in
            let away : (c == z) ≡ false = ground (arith, ==_iff c z, ==_iff z c) in rw away refl),
        (λ z i. let away : (c == z) ≡ false = ground (arith, d.1.0, ==_iff c z) in rw away refl),
      )

  here : (mark c 0 s).payload c ≡ idle
  here = rw (==_refl c) refl

  pub mark-IsHeap : IsHeap (mark c 0 s) (front ++ (c ∷ back)) end
  mark-IsHeap =
      let q = (mark c 0 s).payload in
      let r = reach s.payload kheap_start_addr front in
      let t = Tiles-append s.payload kheap_start_addr front (c ∷ back) end h.tiles in
      let first = Tiles-frame s.payload q kheap_start_addr front r apart.0 t.0 in
      let rest = Tiles-frame s.payload q (r + (s.payload c).size) back end apart.1 t.1.1 in
      let mid : Tiles q r (c ∷ back) end = rw here (t.1.0, rest) in
      record {
        list = IsList-payload s q (front ++ (c ∷ back)) h.list;
        tiles = Tiles-join q kheap_start_addr front (c ∷ back) r end first mid;
        bound = h.bound;
      }

  pub busy_blocks-mark :
      busy_blocks (mark c 0 s).payload (front ++ (c ∷ back))
      ≡ busy_blocks s.payload front ++ busy_blocks s.payload back
  busy_blocks-mark =
      let q = (mark c 0 s).payload in
      let off : (q c).is_busy ≡ 0 = ap (λ (e : KheapEntry). e.is_busy) here in
      rw
        (
          busy_blocks-append q front (c ∷ back),
          busy_blocks_frame s.payload q front apart.0,
          busy_blocks_frame s.payload q back apart.1,
          off,
        )
        refl

  pub mark_sides :
      NoFreePair s.payload false (front ++ (c ∷ back))
      → NoFreePair (mark c 0 s).payload false front × NoFreePair (mark c 0 s).payload false back
  mark_sides apart_free =
      let q = (mark c 0 s).payload in
      let parts = NoFreePair-append s.payload false front (c ∷ back) apart_free in
      let behind = NoFreePair_weaken s.payload ((s.payload c).is_busy == 0) back parts.1.1 in
      (
        NoFreePair_frame s.payload q false front apart.0 parts.0,
        NoFreePair_frame s.payload q false back apart.1 behind,
      )
