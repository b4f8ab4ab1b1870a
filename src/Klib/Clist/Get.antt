-- ===== src/Klib/Clist/Get.antt =====
-- The element with an index.
use rubi_kernel.Prelude.{
  ℕ, zero, suc, ◌<◌, ◌≤◌, ◌≡◌, ◌∙◌, refl, sym, ap, false, List, [], ◌∷◌, length, ltb, Bool-cases,
  inl, inr, arith,
}
use rubi_kernel.Klib.Clist.{Clist, get_from, clist_get}
use rubi_kernel.Klib.Clist.Ring.{Nodes, Links, IsRing}

-- the element of a list with an index, NULL behind its end
abbrev pub element : List ℕ → ℕ → ℕ
element [] i = 0
element (x ∷ xs) zero = x
element (x ∷ xs) (suc i) = element xs i

get_from_links :
    (i x stop : ℕ) (ws : List ℕ) (n : Nodes)
    → Links n x ws stop
    → i < length (x ∷ ws)
    → get_from i x n ≡ element (x ∷ ws) i
unfolding get_from
get_from_links zero x stop ws n l h = refl
get_from_links (suc i) x stop [] n l h = absurd (omega arith)
get_from_links (suc i) x stop (w ∷ ws) n l h =
    rw l.0 (get_from_links i w stop ws n l.1 (omega arith))

element_behind : (xs : List ℕ) (i : ℕ) → length xs ≤ i → element xs i ≡ 0
element_behind [] i h = refl
element_behind (x ∷ xs) zero h = absurd (omega arith)
element_behind (x ∷ xs) (suc i) h = element_behind xs i (omega arith)

-- On a ring, `clist_get` is the look-up of the index in the list of its elements, NULL for an index that the
-- list does not have.
pub clist_get_lem :
    (i : ℕ) (ct : Clist) (xs : List ℕ) → IsRing ct xs → clist_get i ct ≡ element xs i
unfolding clist_get
clist_get_lem i ct [] r = let out : ltb i ct.slots ≡ false = ground (arith, r.0) in rw out refl
clist_get_lem i ct (x ∷ ws) r = elim (Bool-cases (ltb i ct.slots)) [
  | inl e ↦ rw e (
      ap (λ h. get_from i h ct.node) r.head_eq
      ∙ get_from_links i x x ws ct.node r.links (ground (arith, r.size)))
  | inr e ↦ rw e (element_behind_sym (ground (arith, r.size)))
]
  where
    element_behind_sym : length (x ∷ ws) ≤ i → 0 ≡ element (x ∷ ws) i
    element_behind_sym h = sym (element_behind (x ∷ ws) i h)
