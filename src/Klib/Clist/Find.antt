-- ===== src/Klib/Clist/Find.antt =====
-- The search of a ring goes once round it.
use rubi_kernel.Prelude.{
  ℕ, zero, suc, ◌<◌, ◌≤◌, ◌≡◌, ◌≢◌, refl, Bool, true, false, List, [], ◌∷◌, ◌++◌, ap, length, arith,
  ◌==◌, if◌then◌else◌, ==_iff, ==_refl, Bool-cases, inl, inr, ok, ◌>>=◌,
}
use rubi_kernel.Klib.Slist.Chain.{has}
use rubi_kernel.Klib.Clist.{Clist, clist_find_from, clist_find}
use rubi_kernel.Klib.Clist.Ring.{Nodes, Links, IsRing}

-- the first element that the test accepts, or NULL
abbrev pub first_match : (ℕ → Bool) → List ℕ → ℕ
first_match f [] = 0
first_match f (x ∷ xs) = if f x then x else first_match f xs

find_from_ring :
    (fuel : ℕ) (f : ℕ → Bool) (head cur : ℕ) (ws : List ℕ) (n : Nodes)
    → Links n cur ws head
    → has head ws ≡ false
    → has 0 ws ≡ false
    → length ws < fuel
    → clist_find_from fuel f head cur n ≡ ok (first_match f (cur ∷ ws))
unfolding clist_find_from
find_from_ring zero f head cur ws n l h z b = absurd (omega arith)
find_from_ring (suc fuel) f head cur [] n l h z b = elim (Bool-cases (f cur)) [
  | inl e ↦ rw e refl
  | inr e ↦ rw (e, l, ==_refl head) refl
]
find_from_ring (suc fuel) f head cur (w ∷ ws) n l h z b =
    let on : (w == head) ≡ false = ground (arith, ==_iff head w, ==_iff w head) in
    let real : (w == 0) ≡ false = ground (arith, ==_iff 0 w, ==_iff w 0) in
    elim (Bool-cases (f cur)) [
      | inl e ↦ rw e refl
      | inr e ↦
          rw (e, l.0, on, real)
            (find_from_ring fuel f head w ws n l.1 (ground arith) (ground arith) (omega arith))
    ]

-- Given fuel for each element, `clist_find` on a ring ends; it returns the first element that the test
-- accepts, from the head on, and NULL when it accepts none.
pub clist_find_lem :
    (fuel : ℕ) (f : ℕ → Bool) (ct : Clist) (xs : List ℕ)
    → IsRing ct xs
    → length xs ≤ fuel
    → clist_find fuel f ct ≡ ok (first_match f xs)
unfolding clist_find
clist_find_lem fuel f ct [] r b = rw r.1 refl
clist_find_lem fuel f ct (x ∷ ws) r b =
    let e = r.head_eq in
    let real : (x == 0) ≡ false = ground (arith, r.non_null, ==_iff x 0, ==_iff 0 x) in
    rw (e, real)
      (find_from_ring fuel f x x ws ct.node r.links r.distinct.0 (ground (arith, r.non_null))
        (omega arith))

pub first_match_frame :
    (f g : ℕ → Bool) (xs : List ℕ)
    → ((a : ℕ) → has a xs ≡ true → f a ≡ g a)
    → first_match f xs ≡ first_match g xs
first_match_frame f g [] same = refl
first_match_frame f g (x ∷ xs) same =
    let ih = first_match_frame f g xs (λ a h. same a (ground arith)) in
    let here = same x (ground (arith, ==_refl x)) in
    elim (Bool-cases (g x)) [ inl e ↦ rw (here, e) refl | inr e ↦ rw (here, e) ih ]

pub first_match-append :
    (f : ℕ → Bool) (xs : List ℕ) (a : ℕ)
    → has 0 xs ≡ false
    → first_match f xs ≡ 0
    → f a ≡ true
    → first_match f (xs ++ (a ∷ [])) ≡ a
first_match-append f [] a z h e = rw e refl
first_match-append f (x ∷ xs) a z h e = elim (Bool-cases (f x)) [
  | inl t ↦ let zero_here : x ≡ 0 = ground arith in absurd (ground (arith, ==_iff 0 x))
  | inr t ↦ rw t (first_match-append f xs a (ground arith) (ground arith) e)
]

pub first_match_in :
    (f : ℕ → Bool) (xs : List ℕ) → first_match f xs ≢ 0 → has (first_match f xs) xs ≡ true
first_match_in f [] n = absurd (n refl)
first_match_in f (x ∷ xs) n = elim (Bool-cases (f x)) [
  | inl t ↦ rw t (ground (arith, ==_refl x))
  | inr t ↦ ground (arith, first_match_in f xs)
]

pub ring_non_null : (ct : Clist) (xs : List ℕ) → IsRing ct xs → has 0 xs ≡ false
ring_non_null ct [] r = refl
ring_non_null ct (x ∷ ws) r = r.non_null

pub ring_self :
    (ct : Clist) (xs : List ℕ) → IsRing ct xs → (z : ℕ) → has z xs ≡ true → (ct.node z).data_ptr ≡ z
ring_self ct [] r z h = cc
ring_self ct (x ∷ ws) r z h = r.self z h

pub first_match_none :
    (f : ℕ → Bool) (xs : List ℕ)
    → has 0 xs ≡ false
    → first_match f xs ≡ 0
    → (z : ℕ) → has z xs ≡ true
    → f z ≡ false
first_match_none f [] z n y h = absurd (cc)
first_match_none f (x ∷ xs) z n y h = elim (Bool-cases (f x)) [
  | inl t ↦ absurd (ground arith)
  | inr t ↦ elim (Bool-cases (x == y)) [
    | inl e ↦ ground (arith, ==_iff x y)
    | inr e ↦ first_match_none f xs (ground arith) (ground arith) y (ground arith)
  ]
]

pub first_match-true :
    (f : ℕ → Bool) (xs : List ℕ) → first_match f xs ≢ 0 → f (first_match f xs) ≡ true
first_match-true f [] n = absurd (n refl)
first_match-true f (x ∷ xs) n = elim (Bool-cases (f x)) [
  | inl t ↦ rw t t
  | inr t ↦ rw t (first_match-true f xs (λ e. n (rw t e)))
]

-- The search of a ring for an element by what its own address points to, as the lists of the kernel do.
pub find_owner_lem :
    (fuel : ℕ) (f : ℕ → Bool) (ct : Clist) (xs : List ℕ)
    → IsRing ct xs
    → length xs ≤ fuel
    → (clist_find fuel (λ entry. f (ct.node entry).data_ptr) ct >>= λ entry.
        ok (if entry == 0 then 0 else (ct.node entry).data_ptr))
      ≡ ok (first_match f xs)
find_owner_lem fuel f ct xs r b =
    let g = λ (entry : ℕ). f (ct.node entry).data_ptr in
    let same = first_match_frame g f xs (λ a h. ap f (ring_self ct xs r a h)) in
    elim (Bool-cases (first_match f xs == 0)) [
      | inl e ↦ rw (clist_find_lem fuel g ct xs r b, same, e) (ap ok (ground arith))
      | inr e ↦
          let n : first_match f xs ≢ 0 = λ z. ground arith in
          rw (clist_find_lem fuel g ct xs r b, same, e)
            (ap ok (ring_self ct xs r (first_match f xs) (first_match_in f xs n)))
    ]
