-- ===== src/Memory/Heap/Elements.antt =====
-- The elements of the list of blocks and their neighbours.
use rubi_kernel.Prelude.{
  ℕ, ◌≡◌, ◌⊎◌, refl, sym, ap, subst, true, false, List, [], ◌∷◌, ◌++◌, arith, ◌==◌, ==_iff, ==_refl,
  inl, inr,
}
use rubi_kernel.Klib.Slist.{null, Slist}
use rubi_kernel.Klib.Slist.Chain.{has, first_or, last_or, has-append, Chain-append}
use rubi_kernel.Klib.Slist.Valid.{IsList}
use rubi_kernel.Memory.Heap.{Kheap}
use rubi_kernel.Memory.Heap.Merge.{snoc_append}

-- an element of a valid list, and its neighbours
module _ {P : Type 0} (s : Slist P) (front : List ℕ) (c : ℕ) (back : List ℕ)
    (is : IsList s (front ++ (c ∷ back))) where
  pub links_of : ((s.node c).prev ≡ last_or null front) × ((s.node c).next ≡ first_or null back)
  links_of = let l = (Chain-append s.node null front (c ∷ back) null is.chain).1 in (l.0, l.1)

  member : has c (front ++ (c ∷ back)) ≡ true
  member = ground (arith, has-append c front (c ∷ back), ==_refl c)

  pub data_of : (s.node c).data_ptr ≡ c
  data_of = (is.live c member).1

  pub real_of : (c == null) ≡ false
  real_of = ground (arith, is.non_null, member, ==_iff c null)

pub snoc_view : (xs : List ℕ) → (xs ≡ []) ⊎ ((ys : List ℕ) × (y : ℕ) × (xs ≡ ys ++ (y ∷ [])))
snoc_view [] = inl refl
snoc_view (x ∷ xs) = elim (snoc_view xs) [
  | inl e ↦ inr ([], x, ap (λ l. x ∷ l) e)
  | inr w ↦ inr (x ∷ w.0, w.1, ap (λ l. x ∷ l) w.2)
]

-- the entry of the block behind `c`, when there is one
pub next_entry :
    (s : Kheap) (front : List ℕ) (c : ℕ) (back : List ℕ)
    → IsList s (front ++ (c ∷ back))
    → (s.node (first_or null back)).data_ptr ≡ first_or (s.node (first_or null back)).data_ptr back
next_entry s front c [] is = refl
next_entry s front c (w ∷ ws) is =
    data_of s (front ++ (c ∷ [])) w ws
      (subst (λ l. IsList s l) (sym (snoc_append front c (w ∷ ws))) is)
