-- ===== src/Memory/Heap/Alloc.antt =====
-- What kmalloc does to the heap.
use rubi_kernel.Prelude.{
  ℕ, ◌+◌, ◌-◌, ◌^◌, ◌≤◌, ◌<◌, ◌≡◌, ◌≢◌, ◌⊎◌, inl, inr, refl, sym, ap, ◌∙◌, subst, true, false, some,
  List, [], ◌∷◌, ◌++◌, arith, leb, ◌==◌, if◌then◌else◌, ==_iff, ==_refl, Bool-cases, Run, ok, fault,
}
use rubi_kernel.Klib.Slist.{null, slot_at, insert_after}
use rubi_kernel.Klib.Slist.Chain.{has, last_or, last_or-append}
use rubi_kernel.Klib.Slist.Valid.{IsList}
use rubi_kernel.Klib.Slist.FreeSlot.{Inserted, insert_after_lem}
use rubi_kernel.Klib.Slist.Payload.{IsList-payload, insert_after_payload}
use rubi_kernel.Memory.Heap.{
  KheapEntry, no_entry, Kheap, kheap_start_addr, kheap_size, block_end, set_entry, mark, cut_off,
  cut_new, shrink, new_block, append_block,
}
use rubi_kernel.Memory.Heap.Blocks.{Entries, Tiles, reach, IsHeap, Tiles-append}
use rubi_kernel.Memory.Heap.Merge.{snoc_append}
use rubi_kernel.Memory.Heap.Elements.{links_of, data_of, real_of, snoc_view}
use rubi_kernel.Memory.Heap.Pairs.{NoFreePair}
use rubi_kernel.Memory.Heap.Neighbours.{none_behind}
use rubi_kernel.Memory.Heap.Take.{Allocated, cut_off_lem}
use rubi_kernel.Memory.Heap.Extend.{append_nil, last_lem}

-- A block is given out; or NULL is returned and nothing changes, since the blocks reach the end of the heap;
-- or every slot of the list is in use, and the code writes through NULL.
abbrev pub Outcome : (size : ℕ) → Kheap → List ℕ → (end : ℕ) → Run (ℕ × Kheap) → Type 0
Outcome size s xs end out =
    Allocated size s xs end out
    ⊎ (((out ≡ ok (0, s)) × (kheap_start_addr + kheap_size ≤ end))
        ⊎ ((out ≡ fault) × ((i : ℕ) → i < s.slots → has (slot_at s i) xs ≡ true)))

Tiles-reach : (p : Entries) (a : ℕ) (xs : List ℕ) (end : ℕ) → Tiles p a xs end → reach p a xs ≡ end
Tiles-reach p a [] end t = t
Tiles-reach p a (x ∷ xs) end t = Tiles-reach p (a + (p x).size) xs end t.1

-- where a new block is put
tail_end :
    (s : Kheap) (xs : List ℕ) (end : ℕ)
    → IsHeap s xs end
    → (if s.tail == null then kheap_start_addr else block_end (s.payload (s.node s.tail).data_ptr))
      ≡ end
tail_end s xs end h = elim (snoc_view xs) [
  | inl e ↦
      let tail : s.tail ≡ null = h.list.tail_eq ∙ ap (λ l. last_or null l) e in
      rw tail (subst (λ l. Tiles s.payload kheap_start_addr l end) e h.tiles)
  | inr w ↦
      let list : IsList s (w.0 ++ (w.1 ∷ [])) = subst (λ l. IsList s l) w.2 h.list in
      let t =
        Tiles-append s.payload kheap_start_addr w.0 (w.1 ∷ []) end
          (subst (λ l. Tiles s.payload kheap_start_addr l end) w.2 h.tiles) in
      let tail : s.tail ≡ w.1 = list.tail_eq ∙ last_or-append null w.0 (w.1 ∷ []) in
      rw (tail, real_of s w.0 w.1 [] list, data_of s w.0 w.1 [] list)
        (omega (arith, t.1.0, t.1.1, h.bound))
]

no_slot : (at size : ℕ) (s : Kheap) → new_block at size (some (null, s)) ≡ fault
unfolding new_block
no_slot at size s = refl

module _ (s : Kheap) (xs : List ℕ) (end size : ℕ) (h : IsHeap s xs end)
    (n : NoFreePair s.payload false xs) (slots : 0 < s.slots) (room : end + size < 2 ^ 32) where
  whole : IsList s (xs ++ [])
  whole = subst (λ l. IsList s l) (append_nil xs) h.list

  put_behind :
      Inserted s xs [] (insert_after no_entry (last_or null xs) s)
      → Allocated size s xs end (new_block end size (insert_after no_entry s.tail s))
  unfolding new_block
  put_behind i =
      let e = slot_at s i.index in
      let ends = Tiles-reach s.payload kheap_start_addr xs end h.tiles in
      let real = real_of i.state xs e [] i.holds in
      let entry : KheapEntry = record {
        is_busy = 1;
        addr = reach s.payload kheap_start_addr xs;
        size = size;
      } in
      let made = set_entry e entry i.state in
      let found = ap (λ t. insert_after no_entry t s) h.list.tail_eq ∙ i.result in
      let same : (z : ℕ) → has z xs ≡ true → made.payload z ≡ s.payload z = λ z m.
        let fresh : has e xs ≡ false = subst (λ l. has e l ≡ false) (sym (append_nil xs)) i.fresh in
        let away : (e == z) ≡ false = ground (arith, ==_iff e z) in
        rw away (
          insert_after_payload no_entry (last_or null xs) e z s i.state i.result
            (λ k. ground (arith, ==_iff e null))
          ∙ (rw away refl)) in
      let tiles = subst (λ k. Tiles s.payload kheap_start_addr xs k) (sym ends) h.tiles in
      let last =
        last_lem s made xs e size (IsList-payload i.state made.payload (xs ++ (e ∷ [])) i.holds)
          tiles n same (rw (==_refl e) refl) (omega arith) xs end refl (omega arith) in
      let at_end =
        subst
          (λ k.
            Allocated size s xs end
              (ok (k, set_entry e (record { is_busy = 1; addr = k; size = size }) i.state)))
          ends last in
      rw (found, data_of i.state xs e [] i.holds, real) at_end

  pub append_block_lem : Outcome size s xs end (append_block size s)
  unfolding append_block
  append_block_lem = elim (Bool-cases (leb (kheap_start_addr + kheap_size) end)) [
    | inl e ↦ rw (tail_end s xs end h, e) (inr (inl (refl, ground arith)))
    | inr e ↦ elim (insert_after_lem no_entry s xs [] whole slots) [
      | inl i ↦ rw (tail_end s xs end h, e) (inl (put_behind i))
      | inr full ↦
          let found = ap (λ t. insert_after no_entry t s) h.list.tail_eq ∙ full.result in
          let stuck : new_block end size (insert_after no_entry s.tail s) ≡ fault =
            ap (new_block end size) found ∙ no_slot end size s in
          rw (tail_end s xs end h, e)
            (inr (
              inr (
                stuck,
                λ i b.
                    subst (λ l. has (slot_at s i) l ≡ true) (sym (append_nil xs)) (full.used i b),
              )))
    ]
  ]

no_cut : (c diff : ℕ) (s : Kheap) → cut_new c diff (some (null, s)) ≡ fault
unfolding cut_new cut_off
no_cut c diff s = refl

some_cut : (c diff e : ℕ) (s : Kheap) → cut_new c diff (some (e, s)) ≡ cut_off c e diff s
unfolding cut_new
some_cut c diff e s = refl

module _ (s : Kheap) (front : List ℕ) (c : ℕ) (back : List ℕ) (size end : ℕ)
    (h : IsHeap s (front ++ (c ∷ back)) end) (n : NoFreePair s.payload false (front ++ (c ∷ back)))
    (free : ((s.payload c).is_busy == 0) ≡ true) (fits : size ≤ (s.payload c).size)
    (slots : 0 < s.slots) where
  abbrev marked : Kheap
  marked = mark c 1 s

  abbrev spare : ℕ
  spare = (s.payload c).size - size

  shrink_opened : shrink c size s ≡ cut_new c spare (insert_after no_entry c marked)
  unfolding shrink
  shrink_opened =
      rw
        (
          data_of s front c back h.list,
          (links_of s front c back h.list).1,
          none_behind s front c back h.list n free,
          ==_refl c,
        )
        refl

  marked-IsList : IsList marked ((front ++ (c ∷ [])) ++ back)
  marked-IsList =
      subst (λ l. IsList marked l) (sym (snoc_append front c back))
        (IsList-payload s marked.payload (front ++ (c ∷ back)) h.list)

  cut_taken :
      Inserted marked (front ++ (c ∷ [])) back (insert_after no_entry c marked)
      → Allocated size s (front ++ (c ∷ back)) end (shrink c size s)
  cut_taken i =
      let e = slot_at s i.index in
      let split : IsList i.state ((front ++ (c ∷ [])) ++ (e ∷ back)) = i.holds in
      let real = real_of i.state (front ++ (c ∷ [])) e back split in
      let list = subst (λ l. IsList i.state l) (snoc_append front c (e ∷ back)) split in
      let fresh = subst (λ l. has e l ≡ false) (snoc_append front c back) i.fresh in
      let kept : (x : ℕ) → x ≢ e → i.state.payload x ≡ marked.payload x = λ x d.
        let away : (e == x) ≡ false = ground arith in
        insert_after_payload no_entry c e x marked i.state i.result
          (λ k. ground (arith, ==_iff e null))
        ∙ (rw away refl) in
      let all = shrink_opened ∙ (ap (cut_new c spare) i.result ∙ some_cut c spare e i.state) in
      subst (λ o. Allocated size s (front ++ (c ∷ back)) end o) (sym all)
        (cut_off_lem s i.state front c e back size end h n free fits fresh list kept)

  pub shrink_lem : Outcome size s (front ++ (c ∷ back)) end (shrink c size s)
  shrink_lem =
      let last : last_or null (front ++ (c ∷ [])) ≡ c = last_or-append null front (c ∷ []) in
      let found = insert_after_lem no_entry marked (front ++ (c ∷ [])) back marked-IsList slots in
      elim found [
        | inl i ↦ inl (cut_taken (rw last at i))
        | inr full ↦ inr (
            inr (
              shrink_opened
                  ∙ (ap (cut_new c spare)
                        (ap (λ a. insert_after no_entry a marked) (sym last) ∙ full.result)
                      ∙ no_cut c spare marked),
              λ j b.
                  subst (λ l. has (slot_at s j) l ≡ true) (snoc_append front c back)
                    (full.used j b),
            ))
      ]
