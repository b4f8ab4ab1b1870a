-- ===== src/Memory/Heap/Merge.antt =====
-- Two free blocks side by side become one.
use rubi_kernel.Prelude.{
  ℕ, ◌+◌, ◌≡◌, ◌≢◌, refl, sym, ap, ◌∙◌, subst, true, false, List, [], ◌∷◌, ◌++◌, arith, ◌==◌,
  if◌then◌else◌, ==_iff, ==_refl, u32, update,
}
use rubi_kernel.Klib.Slist.Chain.{has, has-append, Distinct, Distinct-append}
use rubi_kernel.Klib.Slist.Valid.{IsList}
use rubi_kernel.Klib.Slist.Delete.{delete_lem}
use rubi_kernel.Klib.Slist.Payload.{IsList-payload, delete_payload}
use rubi_kernel.Memory.Heap.{KheapEntry, no_entry, Kheap, kheap_start_addr, set_entry, merge}
use rubi_kernel.Memory.Heap.Blocks.{
  Tiles, reach, busy_blocks, IsHeap, Tiles-append, Tiles-join, Tiles-le, busy_blocks-append,
  Tiles-frame, busy_blocks_frame,
}

pub snoc_append : (xs : List ℕ) (a : ℕ) (ys : List ℕ) → (xs ++ (a ∷ [])) ++ ys ≡ xs ++ (a ∷ ys)
snoc_append [] a ys = refl
snoc_append (x ∷ xs) a ys = ap (λ l. x ∷ l) (snoc_append xs a ys)

-- what merges leave: a heap with the same busy blocks
pub record Merged (s out : Kheap) (xs ys : List ℕ) (end : ℕ) : Type 0 where
  pub heap : IsHeap out ys end
  pub busy : busy_blocks out.payload ys ≡ busy_blocks s.payload xs

module _ (s : Kheap) (front : List ℕ) (a b : ℕ) (back : List ℕ) (end : ℕ)
    (h : IsHeap s (front ++ (a ∷ b ∷ back)) end) (free_a : (s.payload a).is_busy ≡ 0)
    (free_b : (s.payload b).is_busy ≡ 0) where
  abbrev joined : KheapEntry
  joined = record (s.payload a) { size = u32 ((s.payload a).size + (s.payload b).size) }

  abbrev grown : Kheap
  grown = set_entry a joined s

  abbrev parts :
      Distinct front
      × Distinct (a ∷ b ∷ back)
      × ((z : ℕ) → has z front ≡ true → has z (a ∷ b ∷ back) ≡ false)
  parts = Distinct-append front (a ∷ b ∷ back) h.list.distinct

  whole : IsList grown ((front ++ (a ∷ [])) ++ (b ∷ back))
  whole =
      subst (λ l. IsList grown l) (sym (snoc_append front a (b ∷ back)))
        (IsList-payload s (update s.payload a joined) (front ++ (a ∷ b ∷ back)) h.list)

  merged-IsList : IsList (merge a b b s) (front ++ (a ∷ back))
  unfolding merge
  merged-IsList =
      subst (λ l. IsList (merge a b b s) l) (snoc_append front a back)
        ((delete_lem no_entry b grown (front ++ (a ∷ [])) back whole).0)

  member_b : has b (front ++ (a ∷ b ∷ back)) ≡ true
  member_b = ground (arith, has-append b front (a ∷ b ∷ back), ==_refl b)

  merged_payload :
      (x : ℕ) → x ≢ b → (merge a b b s).payload x ≡ (if a == x then joined else s.payload x)
  unfolding merge
  merged_payload x n = delete_payload no_entry b x grown ((h.list.live b member_b).1) n

  merged_other : (x : ℕ) → x ≢ a → x ≢ b → (merge a b b s).payload x ≡ s.payload x
  merged_other x m n =
      let away : (a == x) ≡ false = ground arith in merged_payload x n ∙ (rw away refl)

  ne_ab : a ≢ b
  ne_ab e = ground (arith, parts.1.0, ==_iff a b)

  pub merged_at : (merge a b b s).payload a ≡ joined
  merged_at = merged_payload a ne_ab ∙ (rw (==_refl a) refl)

  pub same_front : (z : ℕ) → has z front ≡ true → (merge a b b s).payload z ≡ s.payload z
  same_front z i =
      let out = parts.2 z i in
      merged_other z (λ e. ground (arith, ==_iff z a)) (λ e. ground (arith, ==_iff z b))

  pub same_back : (z : ℕ) → has z back ≡ true → (merge a b b s).payload z ≡ s.payload z
  same_back z i =
      merged_other z (λ e. ground (arith, parts.1.0, rw e at i))
        (λ e. ground (arith, parts.1.1.0, rw e at i))

  abbrev r : ℕ
  r = reach s.payload kheap_start_addr front

  tiled : Tiles s.payload kheap_start_addr front r × Tiles s.payload r (a ∷ b ∷ back) end
  tiled = Tiles-append s.payload kheap_start_addr front (a ∷ b ∷ back) end h.tiles

  exact : u32 ((s.payload a).size + (s.payload b).size) ≡ (s.payload a).size + (s.payload b).size
  exact =
      let t =
        Tiles-le s.payload (r + (s.payload a).size + (s.payload b).size) back end tiled.1.1.1 in
      omega (arith, h.bound)

  merged-Tiles : Tiles (merge a b b s).payload kheap_start_addr (front ++ (a ∷ back)) end
  merged-Tiles =
      let q = (merge a b b s).payload in
      let first = Tiles-frame s.payload q kheap_start_addr front r same_front tiled.0 in
      let rest =
        Tiles-frame s.payload q (r + (s.payload a).size + (s.payload b).size) back end same_back
          tiled.1.1.1 in
      let here : Tiles q r (a ∷ back) end = (
        ap (λ (e : KheapEntry). e.addr) merged_at ∙ tiled.1.0,
        subst (λ n. Tiles q n back end)
            (omega arith
              ∙ ap (λ n. r + n) (sym (ap (λ (e : KheapEntry). e.size) merged_at ∙ exact)))
            rest,
      ) in
      Tiles-join q kheap_start_addr front (a ∷ back) r end first here

  merged_busy :
      busy_blocks (merge a b b s).payload (front ++ (a ∷ back))
      ≡ busy_blocks s.payload (front ++ (a ∷ b ∷ back))
  merged_busy =
      let q = (merge a b b s).payload in
      let off : (q a).is_busy ≡ 0 = ap (λ (e : KheapEntry). e.is_busy) merged_at ∙ free_a in
      rw
        (
          busy_blocks-append q front (a ∷ back),
          busy_blocks-append s.payload front (a ∷ b ∷ back),
          busy_blocks_frame s.payload q front same_front,
          busy_blocks_frame s.payload q back same_back,
          off,
          free_a,
          free_b,
        )
        refl

  -- Two neighbours that are free become one block, and nothing else changes.
  pub merge_lem : Merged s (merge a b b s) (front ++ (a ∷ b ∷ back)) (front ++ (a ∷ back)) end
  merge_lem = record {
    heap = record { list = merged-IsList; tiles = merged-Tiles; bound = h.bound };
    busy = merged_busy;
  }
