-- ===== src/Memory/Heap/Release.antt =====
-- A block that is released, and its free neighbours.
use rubi_kernel.Prelude.{
  ℕ, ◌≡◌, refl, sym, ap, ◌∙◌, subst, true, false, ◌&&◌, not, List, [], ◌∷◌, ◌++◌, arith, ◌==◌,
  if◌then◌else◌, ==_iff, ==_refl, Bool-cases, inl, inr,
}
use rubi_kernel.Klib.Slist.{null}
use rubi_kernel.Klib.Slist.Chain.{first_or, last_or, last_or-append}
use rubi_kernel.Klib.Slist.Valid.{IsList}
use rubi_kernel.Memory.Heap.{KheapEntry, Kheap, mark, is_free, merge, merge_right, release}
use rubi_kernel.Memory.Heap.Blocks.{Entries, IsHeap}
use rubi_kernel.Memory.Heap.Merge.{snoc_append, Merged, merged_at, same_front, same_back, merge_lem}
use rubi_kernel.Memory.Heap.Elements.{links_of, data_of, real_of, snoc_view, next_entry}
use rubi_kernel.Memory.Heap.Idle.{mark-IsHeap, mark_sides}
use rubi_kernel.Memory.Heap.Pairs.{
  NoFreePair, last_free, NoFreePair-append, NoFreePair_join, NoFreePair_frame, last_free_frame,
  last_free-snoc,
}

-- A heap to which blocks of `xs` have been merged; the busy ones are the same, and no two free ones are
-- side by side.
pub record Released (s out : Kheap) (xs : List ℕ) (end : ℕ) : Type 0 where
  pub elements : List ℕ
  pub merged : Merged s out xs elements end
  pub pairs : NoFreePair out.payload false elements

unchanged :
    (s : Kheap) (xs : List ℕ) (end : ℕ)
    → IsHeap s xs end
    → NoFreePair s.payload false xs
    → Released s s xs end
unchanged s xs end h n = record {
  elements = xs;
  merged = record { heap = h; busy = refl };
  pairs = n;
}

-- Around a block that was just marked, only that block may be free beside a free one, the one behind it.
record Around (p : Entries) (front back : List ℕ) : Type 0 where
  ahead : NoFreePair p false front
  last : last_free p false front ≡ false
  behind : NoFreePair p false back

-- a block behind which no block is free
settle :
    (p : Entries) (front : List ℕ) (c : ℕ) (back : List ℕ)
    → NoFreePair p false front
    → last_free p false front ≡ false
    → NoFreePair p ((p c).is_busy == 0) back
    → NoFreePair p false (front ++ (c ∷ back))
settle p front c back n l m = NoFreePair_join p false front (c ∷ back) n (ground arith, m)

merge_right_lem :
    (s : Kheap) (front : List ℕ) (c : ℕ) (back : List ℕ) (end n : ℕ)
    → IsHeap s (front ++ (c ∷ back)) end
    → (s.payload c).is_busy ≡ 0
    → n ≡ first_or n back
    → Around s.payload front back
    → Released s (merge_right c (first_or null back) n s) (front ++ (c ∷ back)) end
unfolding merge_right
merge_right_lem s front c [] end n h f e r =
    unchanged s (front ++ (c ∷ [])) end h (settle s.payload front c [] r.ahead r.last tt)
merge_right_lem s front c (w ∷ ws) end n h f e r =
    let split : IsList s ((front ++ (c ∷ [])) ++ (w ∷ ws)) =
      subst (λ l. IsList s l) (sym (snoc_append front c (w ∷ ws))) h.list in
    let real = real_of s (front ++ (c ∷ [])) w ws split in
    elim (Bool-cases ((s.payload w).is_busy == 0)) [
      | inl z ↦
          let fw = (==_iff (s.payload w).is_busy 0).0 z in
          let q = (merge c w w s).payload in
          let front_same = same_front s front c w ws end h f fw in
          let back_same = same_back s front c w ws end h f fw in
          let off : ((q c).is_busy == 0) ≡ true =
            ground (
              arith,
              ap (λ (x : KheapEntry). x.is_busy) (merged_at s front c w ws end h f fw),
              f,
            ) in
          let ahead = NoFreePair_frame s.payload q false front front_same r.ahead in
          let last = last_free_frame s.payload q false front front_same ∙ r.last in
          let behind =
            NoFreePair_frame s.payload q ((s.payload w).is_busy == 0) ws back_same r.behind.1 in
          rw (e, real, z)
            (record {
              elements = front ++ (c ∷ ws);
              merged = merge_lem s front c w ws end h f fw;
              pairs =
                  settle q front c ws ahead last
                    (subst (λ b. NoFreePair q b ws) (z ∙ sym off) behind);
            })
      | inr z ↦
          let kept : NoFreePair s.payload ((s.payload c).is_busy == 0) (w ∷ ws) =
            (ground arith, r.behind.1) in
          rw (e, real, z)
            (unchanged s (front ++ (c ∷ w ∷ ws)) end h
              (settle s.payload front c (w ∷ ws) r.ahead r.last kept))
    ]

module _ (s : Kheap) (front : List ℕ) (c : ℕ) (back : List ℕ) (end : ℕ)
    (h : IsHeap s (front ++ (c ∷ back)) end) where
  opened : release c s ≡ (
      let p = (s.node (last_or null front)).data_ptr in
      let w = first_or null back in
      let n = (s.node w).data_ptr in
      if not (last_or null front == null) && is_free p (mark c 0 s)
      then merge_right p w n (merge p c c (mark c 0 s))
      else merge_right c w n (mark c 0 s))
  unfolding release
  opened =
      rw
        (
          data_of s front c back h.list,
          (links_of s front c back h.list).0,
          (links_of s front c back h.list).1,
        )
        refl

-- A merge with the block before, and then one with the block behind.
join_left :
    (t : Kheap) (f : List ℕ) (u c : ℕ) (back : List ℕ) (end n : ℕ)
    → IsHeap t (f ++ (u ∷ c ∷ back)) end
    → (t.payload u).is_busy ≡ 0
    → (t.payload c).is_busy ≡ 0
    → n ≡ first_or n back
    → Around t.payload f back
    → Released t (merge_right u (first_or null back) n (merge u c c t)) (f ++ (u ∷ c ∷ back)) end
join_left t f u c back end n h fu fc e r =
    let still = ap (λ (x : KheapEntry). x.is_busy) (merged_at t f u c back end h fu fc) ∙ fu in
    let m = merge_lem t f u c back end h fu fc in
    let q = (merge u c c t).payload in
    let front_same = same_front t f u c back end h fu fc in
    let around : Around q f back = record {
      ahead = NoFreePair_frame t.payload q false f front_same r.ahead;
      last = last_free_frame t.payload q false f front_same ∙ r.last;
      behind =
          NoFreePair_frame t.payload q false back (same_back t f u c back end h fu fc) r.behind;
    } in
    let out = merge_right_lem (merge u c c t) f u back end n m.heap still e around in
    record {
      elements = out.elements;
      merged = record { heap = out.merged.heap; busy = out.merged.busy ∙ m.busy };
      pairs = out.pairs;
    }

release_behind :
    (s : Kheap) (f : List ℕ) (u c : ℕ) (back : List ℕ) (end : ℕ)
    → IsHeap s ((f ++ (u ∷ [])) ++ (c ∷ back)) end
    → NoFreePair s.payload false ((f ++ (u ∷ [])) ++ (c ∷ back))
    → Released (mark c 0 s) (release c s) ((f ++ (u ∷ [])) ++ (c ∷ back)) end
release_behind s f u c back end h apart_free =
    let front = f ++ (u ∷ []) in
    let q = (mark c 0 s).payload in
    let marked = mark-IsHeap s front c back end h in
    let sides = mark_sides s front c back end h apart_free in
    let off : ((mark c 0 s).payload c).is_busy ≡ 0 = rw (==_refl c) refl in
    let n = (s.node (first_or null back)).data_ptr in
    let e = next_entry s front c back h.list in
    let shift = snoc_append f u (c ∷ back) in
    let whole : IsList s (f ++ (u ∷ c ∷ back)) = subst (λ l. IsList s l) shift h.list in
    let joined : IsHeap (mark c 0 s) (f ++ (u ∷ c ∷ back)) end =
      subst (λ l. IsHeap (mark c 0 s) l end) shift marked in
    let last : last_or null front ≡ u = last_or-append null f (u ∷ []) in
    let start = opened s front c back end h in
    elim (Bool-cases ((q u).is_busy == 0)) [
      | inl z ↦
          let ends = NoFreePair-append q false f (u ∷ []) sides.0 in
          let around : Around q f back = record {
            ahead = ends.0;
            last = ground (arith, ends.1.0);
            behind = sides.1;
          } in
          rw (start, last, data_of s f u (c ∷ back) whole, real_of s f u (c ∷ back) whole, z)
            (subst
              (λ l.
                Released (mark c 0 s)
                  (merge_right u (first_or null back) n (merge u c c (mark c 0 s))) l end)
              (sym shift)
              (join_left (mark c 0 s) f u c back end n joined ((==_iff (q u).is_busy 0).0 z) off e
                around))
      | inr z ↦
          let around : Around q front back = record {
            ahead = sides.0;
            last = last_free-snoc q false f u ∙ z;
            behind = sides.1;
          } in
          rw (start, last, data_of s f u (c ∷ back) whole, real_of s f u (c ∷ back) whole, z)
            (merge_right_lem (mark c 0 s) front c back end n marked off e around)
    ]

release_first :
    (s : Kheap) (c : ℕ) (back : List ℕ) (end : ℕ)
    → IsHeap s (c ∷ back) end
    → NoFreePair s.payload false (c ∷ back)
    → Released (mark c 0 s) (release c s) (c ∷ back) end
release_first s c back end h apart_free =
    let marked = mark-IsHeap s [] c back end h in
    let sides = mark_sides s [] c back end h apart_free in
    let off : ((mark c 0 s).payload c).is_busy ≡ 0 = rw (==_refl c) refl in
    let n = (s.node (first_or null back)).data_ptr in
    rw (opened s [] c back end h) (
      merge_right_lem (mark c 0 s) [] c back end n marked off (next_entry s [] c back h.list)
        (record { ahead = tt; last = refl; behind = sides.1 }))

-- Releasing a block leaves a heap over the same range, whose busy blocks are those that are left when the
-- block is marked free, with no two free blocks side by side when there were none.
pub release_lem :
    (s : Kheap) (front : List ℕ) (c : ℕ) (back : List ℕ) (end : ℕ)
    → IsHeap s (front ++ (c ∷ back)) end
    → NoFreePair s.payload false (front ++ (c ∷ back))
    → Released (mark c 0 s) (release c s) (front ++ (c ∷ back)) end
release_lem s front c back end h apart_free = elim (snoc_view front) [
  | inl nil ↦
      subst (λ f. Released (mark c 0 s) (release c s) (f ++ (c ∷ back)) end) (sym nil)
        (release_first s c back end (subst (λ f. IsHeap s (f ++ (c ∷ back)) end) nil h)
          (subst (λ f. NoFreePair s.payload false (f ++ (c ∷ back))) nil apart_free))
  | inr w ↦
      subst (λ f. Released (mark c 0 s) (release c s) (f ++ (c ∷ back)) end) (sym w.2)
        (release_behind s w.0 w.1 c back end (subst (λ f. IsHeap s (f ++ (c ∷ back)) end) w.2 h)
          (subst (λ f. NoFreePair s.payload false (f ++ (c ∷ back))) w.2 apart_free))
]
