-- ===== src/Memory/Heap/Blocks.antt =====
-- The blocks of the heap: they lie one behind the other, and some of them are busy.
use rubi_kernel.Prelude.{
  ℕ, ◌+◌, ◌^◌, ◌≤◌, ◌<◌, ◌≡◌, refl, sym, ap, subst, true, List, [], ◌∷◌, ◌++◌, arith, ◌==◌,
  if◌then◌else◌, ==_refl, Bool-cases, inl, inr,
}
use rubi_kernel.Klib.Slist.Chain.{has}
use rubi_kernel.Klib.Slist.Valid.{IsList}
use rubi_kernel.Memory.Heap.{KheapEntry, Kheap, kheap_start_addr}

abbrev pub Entries : Type 0
Entries = ℕ → KheapEntry

-- From address `a` on, each block begins where the one before it ends, up to `end`.
abbrev pub Tiles : Entries → ℕ → List ℕ → ℕ → Type 0
Tiles p a [] end = a ≡ end
Tiles p a (x ∷ xs) end = ((p x).addr ≡ a) × Tiles p (a + (p x).size) xs end

-- where the blocks end
abbrev pub reach : Entries → ℕ → List ℕ → ℕ
reach p a [] = a
reach p a (x ∷ xs) = reach p (a + (p x).size) xs

-- the addresses and sizes of the busy blocks, in order
abbrev pub busy_blocks : Entries → List ℕ → List (ℕ × ℕ)
busy_blocks p [] = []
busy_blocks p (x ∷ xs) =
    let rest = busy_blocks p xs in
    if (p x).is_busy == 0 then rest else ((p x).addr, (p x).size) ∷ rest

-- The heap is a valid list, whose blocks fill it from its start to `end`, with no wrap.
pub record IsHeap (s : Kheap) (xs : List ℕ) (end : ℕ) : Type 0 where
  pub list : IsList s xs
  pub tiles : Tiles s.payload kheap_start_addr xs end
  pub bound : end < 2 ^ 32

module _ (p : Entries) where
  pub Tiles-append :
      (a : ℕ) (xs ys : List ℕ) (end : ℕ)
      → Tiles p a (xs ++ ys) end
      → Tiles p a xs (reach p a xs) × Tiles p (reach p a xs) ys end
  Tiles-append a [] ys end t = (refl, t)
  Tiles-append a (x ∷ xs) ys end t =
      let ih = Tiles-append (a + (p x).size) xs ys end t.1 in ((t.0, ih.0), ih.1)

  pub Tiles-join :
      (a : ℕ) (xs ys : List ℕ) (b end : ℕ)
      → Tiles p a xs b
      → Tiles p b ys end
      → Tiles p a (xs ++ ys) end
  Tiles-join a [] ys b end t u = subst (λ c. Tiles p c ys end) (sym t) u
  Tiles-join a (x ∷ xs) ys b end t u = (t.0, Tiles-join (a + (p x).size) xs ys b end t.1 u)

  pub Tiles-le : (a : ℕ) (xs : List ℕ) (end : ℕ) → Tiles p a xs end → a ≤ end
  Tiles-le a [] end t = omega (arith, t)
  Tiles-le a (x ∷ xs) end t = omega (arith, Tiles-le (a + (p x).size) xs end t.1)

  pub busy_blocks-append :
      (xs ys : List ℕ) → busy_blocks p (xs ++ ys) ≡ busy_blocks p xs ++ busy_blocks p ys
  busy_blocks-append [] ys = refl
  busy_blocks-append (x ∷ xs) ys =
      let ih = busy_blocks-append xs ys in
      elim (Bool-cases ((p x).is_busy == 0)) [
        | inl e ↦ rw e ih
        | inr e ↦ rw e (ap (λ l. ((p x).addr, (p x).size) ∷ l) ih)
      ]

module _ (p q : Entries) where
  pub Tiles-frame :
      (a : ℕ) (xs : List ℕ) (end : ℕ)
      → ((z : ℕ) → has z xs ≡ true → q z ≡ p z)
      → Tiles p a xs end
      → Tiles q a xs end
  Tiles-frame a [] end same t = t
  Tiles-frame a (x ∷ xs) end same t =
      let here = same x (ground (arith, ==_refl x)) in
      let more = Tiles-frame (a + (p x).size) xs end (λ z h. same z (ground arith)) t.1 in
      rw here (t.0, more)

  pub busy_blocks_frame :
      (xs : List ℕ) → ((z : ℕ) → has z xs ≡ true → q z ≡ p z) → busy_blocks q xs ≡ busy_blocks p xs
  busy_blocks_frame [] same = refl
  busy_blocks_frame (x ∷ xs) same =
      let here = same x (ground (arith, ==_refl x)) in
      let ih = busy_blocks_frame xs (λ z h. same z (ground arith)) in rw (here, ih) refl
