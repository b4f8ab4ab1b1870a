-- ===== src/Klib/Slist/Ends.antt =====
-- The first and the last element of a list, and the head and tail that insertions set.
use rubi_kernel.Prelude.{
  ℕ, ◌≡◌, ◌≢◌, ◌⊎◌, refl, true, false, List, [], ◌∷◌, arith, ==_refl, inl, inr,
}
use rubi_kernel.Klib.Slist.{null, Slist, set_ends_after, set_ends_before}
use rubi_kernel.Klib.Slist.Chain.{Nodes, Chain, has, first_or, last_or, has-last}

pub has_last : (x : ℕ) (xs : List ℕ) → last_or x xs ≢ x → has (last_or x xs) xs ≡ true
has_last x xs h = ground (arith, has-last x xs)

pub last_out : (xs : List ℕ) (a : ℕ) → a ≢ null → has a xs ≡ false → last_or null xs ≢ a
last_out xs a h out = λ p. ground (arith, has_last null xs)

pub first_out : (xs : List ℕ) (a : ℕ) → a ≢ null → has a xs ≡ false → first_or null xs ≢ a
first_out [] a h out = λ p. ground arith
first_out (x ∷ xs) a h out = λ p. ground arith

pub first_in : (xs : List ℕ) → (first_or null xs ≡ null) ⊎ (has (first_or null xs) xs ≡ true)
first_in [] = inl refl
first_in (x ∷ xs) = inr (ground (arith, ==_refl x))

pub last_in : (xs : List ℕ) → (last_or null xs ≡ null) ⊎ (has (last_or null xs) xs ≡ true)
last_in [] = inl refl
last_in (x ∷ xs) = inr (has-last x xs)

pub has-ne : (a b : ℕ) (xs : List ℕ) → has a xs ≡ true → has b xs ≡ false → a ≢ b
has-ne a b xs h k e = let k' : has a xs ≡ false = rw e k in cc

-- A list is empty, or its first and its last element are in it.
pub ends_case :
    (xs : List ℕ) (f f' d d' : ℕ)
    → (xs ≡ [])
      ⊎ ((first_or f xs ≡ first_or f' xs)
          × (has (first_or f xs) xs ≡ true)
          × (last_or d xs ≡ last_or d' xs)
          × (has (last_or d xs) xs ≡ true))
ends_case [] f f' d d' = inl refl
ends_case (x ∷ xs) f f' d d' = inr (refl, ground (arith, ==_refl x), refl, has-last x xs)

pub last_next :
    (n : Nodes) (p : ℕ) (xs : List ℕ) (q : ℕ)
    → has (last_or p xs) xs ≡ true
    → Chain n p xs q
    → (n (last_or p xs)).next ≡ q
last_next n p [] q h c = cc
last_next n p (x ∷ []) q h c = c.1
last_next n p (x ∷ y ∷ ys) q h c = last_next n x (y ∷ ys) q (has-last y ys) c.2

pub first_prev :
    (n : Nodes) (p : ℕ) (xs : List ℕ) (q : ℕ)
    → has (first_or q xs) xs ≡ true
    → Chain n p xs q
    → (n (first_or q xs)).prev ≡ p
first_prev n p [] q h c = cc
first_prev n p (x ∷ xs) q h c = c.0

module _ {P : Type 0} (e pos : ℕ) (s : Slist P) where
  pub ends_after_rest :
      ((set_ends_after e pos s).node ≡ s.node)
      × ((set_ends_after e pos s).slots ≡ s.slots)
      × ((set_ends_after e pos s).base ≡ s.base)
      × ((set_ends_after e pos s).slot_size ≡ s.slot_size)
      × ((set_ends_after e pos s).payload ≡ s.payload)
  unfolding set_ends_after
  ends_after_rest = (ground arith, ground arith, ground arith, ground arith, ground arith)

  pub set_ends_after_lem :
      (f l : ℕ)
      → ((pos ≡ null) × (f ≡ e)) ⊎ ((pos ≢ null) × (f ≡ s.head) × (s.head ≢ null))
      → ((l ≡ e) × (s.tail ≡ pos)) ⊎ ((l ≡ s.tail) × (s.tail ≢ pos))
      → ((set_ends_after e pos s).head ≡ f) × ((set_ends_after e pos s).tail ≡ l)
  unfolding set_ends_after
  set_ends_after_lem f l (inl p) (inl q) = (ground arith, ground arith)
  set_ends_after_lem f l (inl p) (inr q) = (ground arith, ground arith)
  set_ends_after_lem f l (inr p) (inl q) = (ground arith, ground arith)
  set_ends_after_lem f l (inr p) (inr q) = (ground arith, ground arith)

  pub set_ends_before_lem :
      (f l : ℕ)
      → ((pos ≡ null) × (l ≡ e)) ⊎ ((pos ≢ null) × (l ≡ s.tail) × (s.tail ≢ null))
      → ((f ≡ e) × (s.head ≡ pos)) ⊎ ((f ≡ s.head) × (s.head ≢ pos))
      → ((set_ends_before e pos s).head ≡ f) × ((set_ends_before e pos s).tail ≡ l)
  unfolding set_ends_before
  set_ends_before_lem f l (inl p) (inl q) = (ground arith, ground arith)
  set_ends_before_lem f l (inl p) (inr q) = (ground arith, ground arith)
  set_ends_before_lem f l (inr p) (inl q) = (ground arith, ground arith)
  set_ends_before_lem f l (inr p) (inr q) = (ground arith, ground arith)

  pub ends_before_rest :
      ((set_ends_before e pos s).node ≡ s.node)
      × ((set_ends_before e pos s).slots ≡ s.slots)
      × ((set_ends_before e pos s).base ≡ s.base)
      × ((set_ends_before e pos s).slot_size ≡ s.slot_size)
      × ((set_ends_before e pos s).payload ≡ s.payload)
  unfolding set_ends_before
  ends_before_rest = (ground arith, ground arith, ground arith, ground arith, ground arith)
