-- ===== src/Memory/Heap/Pairs.antt =====
-- No two free blocks side by side, which kfree aims at and kmalloc relies on.
use rubi_kernel.Prelude.{
  ℕ, ◌≡◌, refl, Bool, true, false, ◌&&◌, List, [], ◌∷◌, ◌++◌, arith, ◌==◌, ==_refl,
}
use rubi_kernel.Klib.Slist.Chain.{has}
use rubi_kernel.Memory.Heap.Blocks.{Entries}

-- `before` says whether the block in front of the list is free
abbrev pub NoFreePair : Entries → (before : Bool) → List ℕ → Type 0
NoFreePair p before [] = Unit {0}
NoFreePair p before (x ∷ xs) =
    ((before && ((p x).is_busy == 0)) ≡ false) × NoFreePair p ((p x).is_busy == 0) xs

-- whether the last block is free
abbrev pub last_free : Entries → Bool → List ℕ → Bool
last_free p before [] = before
last_free p before (x ∷ xs) = last_free p ((p x).is_busy == 0) xs

pub NoFreePair-append :
    (p : Entries) (b : Bool) (xs ys : List ℕ)
    → NoFreePair p b (xs ++ ys)
    → NoFreePair p b xs × NoFreePair p (last_free p b xs) ys
NoFreePair-append p b [] ys n = (tt, n)
NoFreePair-append p b (x ∷ xs) ys n =
    let ih = NoFreePair-append p ((p x).is_busy == 0) xs ys n.1 in ((n.0, ih.0), ih.1)

pub NoFreePair_join :
    (p : Entries) (b : Bool) (xs ys : List ℕ)
    → NoFreePair p b xs
    → NoFreePair p (last_free p b xs) ys
    → NoFreePair p b (xs ++ ys)
NoFreePair_join p b [] ys n m = m
NoFreePair_join p b (x ∷ xs) ys n m = (n.0, NoFreePair_join p ((p x).is_busy == 0) xs ys n.1 m)

module _ (p q : Entries) where
  pub NoFreePair_frame :
      (b : Bool) (xs : List ℕ)
      → ((z : ℕ) → has z xs ≡ true → q z ≡ p z)
      → NoFreePair p b xs
      → NoFreePair q b xs
  NoFreePair_frame b [] same n = tt
  NoFreePair_frame b (x ∷ xs) same n =
      let here = same x (ground (arith, ==_refl x)) in
      let more = NoFreePair_frame ((p x).is_busy == 0) xs (λ z h. same z (ground arith)) n.1 in
      rw here (n.0, more)

  pub last_free_frame :
      (b : Bool) (xs : List ℕ)
      → ((z : ℕ) → has z xs ≡ true → q z ≡ p z)
      → last_free q b xs ≡ last_free p b xs
  last_free_frame b [] same = refl
  last_free_frame b (x ∷ xs) same =
      let here = same x (ground (arith, ==_refl x)) in
      rw here (last_free_frame ((p x).is_busy == 0) xs (λ z h. same z (ground arith)))

-- A list that may begin behind a free block may begin behind a busy one.
pub NoFreePair_weaken :
    (p : Entries) (b : Bool) (xs : List ℕ) → NoFreePair p b xs → NoFreePair p false xs
NoFreePair_weaken p b [] n = tt
NoFreePair_weaken p b (x ∷ xs) n = (refl, n.1)

pub last_free-snoc :
    (p : Entries) (b : Bool) (xs : List ℕ) (u : ℕ)
    → last_free p b (xs ++ (u ∷ [])) ≡ ((p u).is_busy == 0)
last_free-snoc p b [] u = refl
last_free-snoc p b (x ∷ xs) u = last_free-snoc p ((p x).is_busy == 0) xs u
