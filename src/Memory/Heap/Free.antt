-- ===== src/Memory/Heap/Free.antt =====
-- What kfree does to the heap.
use rubi_kernel.Prelude.{
  ℕ, zero, suc, ◌<◌, ◌≡◌, refl, sym, ap, ◌∙◌, subst, true, false, ◌&&◌, not, List, [], ◌∷◌, ◌++◌,
  length, arith, ◌==◌, if◌then◌else◌, Bool-cases, inl, inr, Run, ok,
}
use rubi_kernel.Klib.Slist.{null}
use rubi_kernel.Klib.Slist.Chain.{first_or}
use rubi_kernel.Memory.Heap.{Kheap, release, kfree_from, kfree}
use rubi_kernel.Memory.Heap.Blocks.{Entries, busy_blocks, IsHeap, busy_blocks-append}
use rubi_kernel.Memory.Heap.Merge.{snoc_append}
use rubi_kernel.Memory.Heap.Pairs.{NoFreePair}
use rubi_kernel.Memory.Heap.Elements.{links_of, data_of, real_of}
use rubi_kernel.Memory.Heap.Idle.{busy_blocks-mark}
use rubi_kernel.Memory.Heap.Release.{release_lem}

-- the list without the first block at the address
abbrev pub remove_first : ℕ → List (ℕ × ℕ) → List (ℕ × ℕ)
remove_first ptr [] = []
remove_first ptr (b ∷ bs) = let rest = remove_first ptr bs in if b.0 == ptr then bs else b ∷ rest

-- kfree ends with a heap over the same range; the busy block at the address is gone from the busy ones, and
-- no other. No two free blocks are side by side.
pub record Freed (ptr : ℕ) (s : Kheap) (xs : List ℕ) (end : ℕ) (out : Run Kheap) : Type 0 where
  pub state : Kheap
  pub elements : List ℕ
  pub result : out ≡ ok state
  pub heap : IsHeap state elements end
  pub pairs : NoFreePair state.payload false elements
  pub busy : busy_blocks state.payload elements ≡ remove_first ptr (busy_blocks s.payload xs)

append_assoc : (xs ys zs : List (ℕ × ℕ)) → (xs ++ ys) ++ zs ≡ xs ++ (ys ++ zs)
append_assoc [] ys zs = refl
append_assoc (x ∷ xs) ys zs = ap (λ l. x ∷ l) (append_assoc xs ys zs)

-- The loop has passed no busy block at the address.
abbrev Passed : ℕ → List (ℕ × ℕ) → Type 0
Passed ptr bs = (l : List (ℕ × ℕ)) → remove_first ptr (bs ++ l) ≡ bs ++ remove_first ptr l

pass_one :
    (ptr c : ℕ) (p : Entries) (front : List ℕ)
    → Passed ptr (busy_blocks p front)
    → (not ((p c).is_busy == 0) && ((p c).addr == ptr)) ≡ false
    → Passed ptr (busy_blocks p (front ++ (c ∷ [])))
pass_one ptr c p front h e l =
    let split = busy_blocks-append p front (c ∷ []) in
    let assoc = append_assoc (busy_blocks p front) (busy_blocks p (c ∷ [])) l in
    let after = append_assoc (busy_blocks p front) (busy_blocks p (c ∷ [])) (remove_first ptr l) in
    elim (Bool-cases ((p c).is_busy == 0)) [
      | inl z ↦ rw (split, assoc, after, z) (h l)
      | inr z ↦
          let other : ((p c).addr == ptr) ≡ false = ground arith in
          rw (split, assoc, after, z) (h (((p c).addr, (p c).size) ∷ l) ∙ (rw other refl))
    ]

stop_here :
    (ptr : ℕ) (s : Kheap) (front : List ℕ) (c : ℕ) (back : List ℕ) (end : ℕ)
    → IsHeap s (front ++ (c ∷ back)) end
    → NoFreePair s.payload false (front ++ (c ∷ back))
    → Passed ptr (busy_blocks s.payload front)
    → (not ((s.payload c).is_busy == 0) && ((s.payload c).addr == ptr)) ≡ true
    → Freed ptr s (front ++ (c ∷ back)) end (ok (release c s))
stop_here ptr s front c back end h apart_free passed e =
    let r = release_lem s front c back end h apart_free in
    let on : ((s.payload c).is_busy == 0) ≡ false = ground arith in
    let here : ((s.payload c).addr == ptr) ≡ true = ground arith in
    let gone : remove_first ptr (busy_blocks s.payload (front ++ (c ∷ back)))
        ≡ busy_blocks s.payload front ++ busy_blocks s.payload back =
      rw (busy_blocks-append s.payload front (c ∷ back), on) (passed _ ∙ (rw here refl)) in
    record {
      state = release c s;
      elements = r.elements;
      result = refl;
      heap = r.merged.heap;
      pairs = r.pairs;
      busy = r.merged.busy ∙ (busy_blocks-mark s front c back end h ∙ sym gone);
    }

kfree_from_lem :
    (fuel ptr : ℕ) (s : Kheap) (front rest : List ℕ) (end : ℕ)
    → IsHeap s (front ++ rest) end
    → NoFreePair s.payload false (front ++ rest)
    → Passed ptr (busy_blocks s.payload front)
    → length rest < fuel
    → Freed ptr s (front ++ rest) end (kfree_from fuel (first_or null rest) ptr s)
unfolding kfree_from
kfree_from_lem zero ptr s front rest end h apart_free passed b = absurd (omega arith)
kfree_from_lem (suc fuel) ptr s front [] end h apart_free passed b = record {
  state = s;
  elements = front ++ [];
  result = refl;
  heap = h;
  pairs = apart_free;
  busy = rw (busy_blocks-append s.payload front []) (sym (passed []));
}
kfree_from_lem (suc fuel) ptr s front (c ∷ back) end h apart_free passed b =
    let d = data_of s front c back h.list in
    let real = real_of s front c back h.list in
    let next = (links_of s front c back h.list).1 in
    elim (Bool-cases (not ((s.payload c).is_busy == 0) && ((s.payload c).addr == ptr))) [
      | inl e ↦ rw (real, d, e) (stop_here ptr s front c back end h apart_free passed e)
      | inr e ↦
          let shift = snoc_append front c back in
          let ih =
            kfree_from_lem fuel ptr s (front ++ (c ∷ [])) back end
              (subst (λ l. IsHeap s l end) (sym shift) h)
              (subst (λ l. NoFreePair s.payload false l) (sym shift) apart_free)
              (pass_one ptr c s.payload front passed e) (omega arith) in
          rw (real, d, e, next)
            (subst (λ l. Freed ptr s l end (kfree_from fuel (first_or null back) ptr s)) shift ih)
    ]

-- On a heap of fewer blocks than the fuel, with no two free blocks side by side, `kfree` ends, and leaves a heap
-- over the same range. Its busy blocks are the ones that were busy, less the first at the address when
-- there is one, and none of them moves or changes its size. No two free blocks are side by side.
pub kfree_lem :
    (fuel ptr : ℕ) (s : Kheap) (xs : List ℕ) (end : ℕ)
    → IsHeap s xs end
    → NoFreePair s.payload false xs
    → length xs < fuel
    → Freed ptr s xs end (kfree fuel ptr s)
unfolding kfree
kfree_lem fuel ptr s xs end h apart_free b =
    subst (λ c. Freed ptr s xs end (kfree_from fuel c ptr s)) (sym h.list.head_eq)
      (kfree_from_lem fuel ptr s [] xs end h apart_free (λ l. refl) b)
