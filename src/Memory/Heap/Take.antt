-- ===== src/Memory/Heap/Take.antt =====
-- A free block that is large enough: its front is taken, and what is left becomes a block of its own.
use rubi_kernel.Prelude.{
  ℕ, ◌+◌, ◌-◌, ◌≤◌, ◌≡◌, ◌≢◌, refl, sym, ap, ◌∙◌, subst, Bool, true, false, List, [], ◌∷◌, ◌++◌,
  arith, ◌==◌, ==_iff, ==_refl, u32, Run, ok,
}
use rubi_kernel.Klib.Slist.Chain.{has, has-append, Distinct, Distinct-append}
use rubi_kernel.Klib.Slist.Valid.{IsList}
use rubi_kernel.Klib.Slist.Payload.{IsList-payload}
use rubi_kernel.Memory.Heap.{KheapEntry, Kheap, kheap_start_addr, sub32, set_entry, mark, cut_off}
use rubi_kernel.Memory.Heap.Blocks.{
  Tiles, reach, busy_blocks, IsHeap, Tiles-append, Tiles-join, Tiles-le, busy_blocks-append,
  Tiles-frame, busy_blocks_frame,
}
use rubi_kernel.Memory.Heap.Merge.{snoc_append}
use rubi_kernel.Memory.Heap.Elements.{data_of, real_of}
use rubi_kernel.Memory.Heap.Pairs.{
  NoFreePair, last_free, NoFreePair-append, NoFreePair_join, NoFreePair_frame,
}

-- What kmalloc does when it gives out a block: the busy blocks are as before, none of them moved or
-- resized, and among them there is a new one of the size that was asked for. The blocks end no earlier.
pub record Allocated (size : ℕ) (s : Kheap) (xs : List ℕ) (end : ℕ) (out : Run (ℕ × Kheap))
    : Type 0 where
  pub address : ℕ
  pub state : Kheap
  pub elements : List ℕ
  pub top : ℕ
  pub before : List (ℕ × ℕ)
  pub after : List (ℕ × ℕ)
  pub result : out ≡ ok (address, state)
  pub heap : IsHeap state elements top
  pub pairs : NoFreePair state.payload false elements
  pub was : busy_blocks s.payload xs ≡ before ++ after
  pub now : busy_blocks state.payload elements ≡ before ++ ((address, size) ∷ after)
  pub higher : end ≤ top

module _ (s t : Kheap) (front : List ℕ) (c e : ℕ) (back : List ℕ) (size end : ℕ)
    (h : IsHeap s (front ++ (c ∷ back)) end) (n : NoFreePair s.payload false (front ++ (c ∷ back)))
    (free : ((s.payload c).is_busy == 0) ≡ true) (fits : size ≤ (s.payload c).size)
    (fresh : has e (front ++ (c ∷ back)) ≡ false) (list : IsList t (front ++ (c ∷ e ∷ back)))
    (kept : (x : ℕ) → x ≢ e → t.payload x ≡ (mark c 1 s).payload x) where
  abbrev diff : ℕ
  diff = (s.payload c).size - size

  abbrev taken : KheapEntry
  taken = record { addr = (s.payload c).addr; size = size; is_busy = 1 }

  abbrev rest : KheapEntry
  rest = record { is_busy = 0; addr = (s.payload c).addr + size; size = diff }

  abbrev final : Kheap
  final = set_entry e rest (set_entry c taken t)

  abbrev r : ℕ
  r = reach s.payload kheap_start_addr front

  tiled : Tiles s.payload kheap_start_addr front r × Tiles s.payload r (c ∷ back) end
  tiled = Tiles-append s.payload kheap_start_addr front (c ∷ back) end h.tiles

  below : r + (s.payload c).size ≤ end
  below = Tiles-le s.payload (r + (s.payload c).size) back end tiled.1.1

  abbrev apart :
      Distinct front
      × Distinct (c ∷ back)
      × ((z : ℕ) → has z front ≡ true → has z (c ∷ back) ≡ false)
  apart = Distinct-append front (c ∷ back) h.list.distinct

  ne_ce : (e == c) ≡ false
  ne_ce = ground (arith, fresh, has-append e front (c ∷ back))

  at_c : t.payload c ≡ record (s.payload c) { is_busy = 1 }
  at_c = kept c (λ x. ground (arith, ne_ce, ==_iff e c)) ∙ (rw (==_refl c) refl)

  final_c : final.payload c ≡ taken
  final_c = rw (ne_ce, ==_refl c) refl

  final_e : final.payload e ≡ rest
  final_e = rw (==_refl e) refl

  other : (z : ℕ) → (e == z) ≡ false → (c == z) ≡ false → final.payload z ≡ s.payload z
  other z p q = rw (p, q) (kept z (λ x. ground (arith, ==_iff e z)) ∙ (rw q refl))

  same_front : (z : ℕ) → has z front ≡ true → final.payload z ≡ s.payload z
  same_front z i =
      let out = apart.2 z i in
      other z (ground (arith, fresh, has-append e front (c ∷ back), ==_iff e z))
        (ground (arith, ==_iff c z, ==_iff z c))

  same_back : (z : ℕ) → has z back ≡ true → final.payload z ≡ s.payload z
  same_back z i =
      other z (ground (arith, fresh, has-append e front (c ∷ back), ==_iff e z))
        (ground (arith, apart.1.0, ==_iff c z))

  cut_eq : cut_off c e diff t ≡ ok ((s.payload c).addr, final)
  unfolding cut_off
  cut_eq =
      let split : IsList t ((front ++ (c ∷ [])) ++ (e ∷ back)) =
        subst (λ l. IsList t l) (sym (snoc_append front c (e ∷ back))) list in
      let d = data_of t (front ++ (c ∷ [])) e back split in
      let real = real_of t (front ++ (c ∷ [])) e back split in
      let left : sub32 (s.payload c).size diff ≡ size = omega (arith, below, h.bound, fits) in
      let ends : u32 ((s.payload c).addr + size) ≡ (s.payload c).addr + size =
        omega (arith, below, h.bound, fits, tiled.1.0) in
      rw (d, real, at_c, left, ends) refl

  final-Tiles : Tiles final.payload kheap_start_addr (front ++ (c ∷ e ∷ back)) end
  final-Tiles =
      let q = final.payload in
      let first = Tiles-frame s.payload q kheap_start_addr front r same_front tiled.0 in
      let last = Tiles-frame s.payload q (r + (s.payload c).size) back end same_back tiled.1.1 in
      let sum : r + (s.payload c).size ≡ r + size + diff = omega (arith, fits) in
      let mid : Tiles q r (c ∷ e ∷ back) end =
        rw (final_c, final_e)
          (tiled.1.0, (ap (λ k. k + size) tiled.1.0, subst (λ k. Tiles q k back end) sum last)) in
      Tiles-join q kheap_start_addr front (c ∷ e ∷ back) r end first mid

  final_pairs : NoFreePair final.payload false (front ++ (c ∷ e ∷ back))
  final_pairs =
      let q = final.payload in
      let old = NoFreePair-append s.payload false front (c ∷ back) n in
      let first = NoFreePair_frame s.payload q false front same_front old.0 in
      let behind : NoFreePair s.payload true back =
        subst (λ b. NoFreePair s.payload b back) free old.1.1 in
      let last = NoFreePair_frame s.payload q true back same_back behind in
      let flag : Bool = last_free q false front in
      let mid : NoFreePair q flag (c ∷ e ∷ back) =
        rw (final_c, final_e) (ground arith, (refl, last)) in
      NoFreePair_join q false front (c ∷ e ∷ back) first mid

  -- The block is taken, and what is left of it is a free block behind it.
  pub cut_off_lem : Allocated size s (front ++ (c ∷ back)) end (cut_off c e diff t)
  cut_off_lem =
      let q = final.payload in
      let unbusy : ((s.payload c).is_busy == 0) ≡ true = free in
      record {
        address = (s.payload c).addr;
        state = final;
        elements = front ++ (c ∷ e ∷ back);
        top = end;
        before = busy_blocks s.payload front;
        after = busy_blocks s.payload back;
        result = cut_eq;
        heap = record {
          list = IsList-payload t q (front ++ (c ∷ e ∷ back)) list;
          tiles = final-Tiles;
          bound = h.bound;
        };
        pairs = final_pairs;
        was = rw (busy_blocks-append s.payload front (c ∷ back), free) refl;
        now =
            rw
              (
                busy_blocks-append q front (c ∷ e ∷ back),
                final_c,
                final_e,
                busy_blocks_frame s.payload q front same_front,
                busy_blocks_frame s.payload q back same_back,
              )
              refl;
        higher = omega arith;
      }
