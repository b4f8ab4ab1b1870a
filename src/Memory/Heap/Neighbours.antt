-- ===== src/Memory/Heap/Neighbours.antt =====
-- The neighbours of a free block are not free.
use rubi_kernel.Prelude.{
  ℕ, ◌≡◌, inl, inr, refl, ap, ◌∙◌, subst, true, false, ◌&&◌, not, List, [], ◌∷◌, ◌++◌, arith, ◌==◌,
}
use rubi_kernel.Klib.Slist.{null}
use rubi_kernel.Klib.Slist.Chain.{first_or, last_or, last_or-append, Distinct-append}
use rubi_kernel.Klib.Slist.Valid.{IsList}
use rubi_kernel.Memory.Heap.{Kheap, mark, is_free}
use rubi_kernel.Memory.Heap.Merge.{snoc_append}
use rubi_kernel.Memory.Heap.Elements.{data_of, snoc_view, next_entry}
use rubi_kernel.Memory.Heap.Pairs.{NoFreePair, last_free, NoFreePair-append, last_free-snoc}

module _ (s : Kheap) (front : List ℕ) (c : ℕ) (back : List ℕ) (is : IsList s (front ++ (c ∷ back)))
    (n : NoFreePair s.payload false (front ++ (c ∷ back)))
    (free : ((s.payload c).is_busy == 0) ≡ true) where
  pub pairs :
      NoFreePair s.payload false front
      × NoFreePair s.payload (last_free s.payload false front) (c ∷ back)
  pairs = NoFreePair-append s.payload false front (c ∷ back) n

  -- A free block has no free block before it.
  pub none_before :
      (not (last_or null front == null) && is_free (s.node (last_or null front)).data_ptr s) ≡ false
  none_before = elim (snoc_view front) [
    | inl e ↦ rw e refl
    | inr w ↦
        let shape : front ++ (c ∷ back) ≡ w.0 ++ (w.1 ∷ c ∷ back) =
          ap (λ f. f ++ (c ∷ back)) w.2 ∙ snoc_append w.0 w.1 (c ∷ back) in
        let d = data_of s w.0 w.1 (c ∷ back) (subst (λ l. IsList s l) shape is) in
        let last : last_or null front ≡ w.1 =
          ap (λ f. last_or null f) w.2 ∙ last_or-append null w.0 (w.1 ∷ []) in
        let flag : last_free s.payload false front ≡ ((s.payload w.1).is_busy == 0) =
          ap (λ f. last_free s.payload false f) w.2 ∙ last_free-snoc s.payload false w.0 w.1 in
        rw (last, d) (ground (arith, pairs.1.0))
  ]

-- A free block has no free block behind it, once it is taken.
pub none_behind :
    (s : Kheap) (front : List ℕ) (c : ℕ) (back : List ℕ)
    → IsList s (front ++ (c ∷ back))
    → NoFreePair s.payload false (front ++ (c ∷ back))
    → ((s.payload c).is_busy == 0) ≡ true
    → (not (first_or null back == null)
        && is_free (s.node (first_or null back)).data_ptr (mark c 1 s))
      ≡ false
none_behind s front c [] is n free = refl
none_behind s front c (w ∷ ws) is n free =
    let d = next_entry s front c (w ∷ ws) is in
    let apart = Distinct-append front (c ∷ w ∷ ws) is.distinct in
    let away : (c == w) ≡ false = ground (arith, apart.1.0) in
    let near = (NoFreePair-append s.payload false front (c ∷ w ∷ ws) n).1 in
    rw (d, away) (ground (arith, near.1.0))
