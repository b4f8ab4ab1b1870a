-- ===== src/Memory/Mmu/Alloc.antt =====
-- `alloc_page` is a first fit over the user pages, `alloc_page_extended` is not.
use rubi_kernel.Prelude.{
  ℕ, zero, suc, ◌+◌, ◌-◌, ◌*◌, ◌%◌, ◌^◌, ◌≤◌, ◌<◌, ◌≡◌, ◌≢◌, ◌⊎◌, inl, inr, refl, ◌∙◌, true, false,
  ◌||◌, arith, ==_iff, Bool-cases, ◌==◌, ltb, ltb→lt, u8, u32,
}
use rubi_kernel.Memory.Layout.{
  page_size, phys_tasks_space_start, phys_tasks_space_end, kernel_extended_start,
}
use rubi_kernel.Memory.Mmu.{
  pages_bitmap, extended_kernel_pages_bitmap, Mmu, protected_linear, protected_phys,
  get_page_from_bitmap, write_pte, simple_page_bitmap_callback, extended_kernel_bitmap_callback,
  bind_page, alloc_page_from, alloc_page, alloc_rounds, alloc_page_extended_from,
  alloc_page_extended,
}
use rubi_kernel.Memory.Mmu.Marking.{IsWords, page, get-page, set_page-extended}
use rubi_kernel.Memory.Mmu.Binding.{Bound, bind_page_lem, bind-unbind_protected}

-- every page between two addresses is marked
abbrev pub Taken : ℕ → ℕ → Mmu → Type 0
Taken lo hi s = (b : ℕ) → lo ≤ b → b < hi → get_page_from_bitmap pages_bitmap b s ≢ 0

-- no user page from `lo` on is free, and nothing changes
pub record Exhausted (lo : ℕ) (s : Mmu) (out : ℕ × Mmu) : Type 0 where
  pub address : out.0 ≡ 0
  pub state : out.1 ≡ s
  pub full : Taken lo phys_tasks_space_end s

-- the lowest free user page from `lo` on is bound
pub record FirstFit (pt l lo : ℕ) (s : Mmu) (out : ℕ × Mmu) : Type 0 where
  pub low : lo ≤ out.0
  pub high : out.0 < phys_tasks_space_end
  pub aligned : out.0 % page_size ≡ 0
  pub free : get_page_from_bitmap pages_bitmap out.0 s ≡ 0
  pub first : Taken lo out.0 s
  pub state : out.1 ≡ bind_page pt l out.0 simple_page_bitmap_callback s

module _ (pt l : ℕ) (s : Mmu) where
  Taken-step :
      (i hi : ℕ)
      → i % page_size ≡ 0
      → get_page_from_bitmap pages_bitmap i s ≢ 0
      → Taken (i + page_size) hi s
      → Taken i hi s
  Taken-step i hi a busy t b lo up = elim (Bool-cases (ltb b (i + page_size))) [
    | inl e ↦ λ f. busy (get-page i b s (omega (arith, ltb→lt b (i + page_size) e)) ∙ f)
    | inr e ↦ t b (ground arith) up
  ]

  alloc_page_from_lem :
      (fuel i : ℕ)
      → i % page_size ≡ 0
      → phys_tasks_space_end < i + fuel * page_size
      → Exhausted i s (alloc_page_from fuel pt l i s)
        ⊎ FirstFit pt l i s (alloc_page_from fuel pt l i s)
  unfolding alloc_page_from
  alloc_page_from_lem zero i a f =
      inl (record { address = refl; state = refl; full = λ b p q. absurd (omega arith) })
  alloc_page_from_lem (suc fuel) i a f = elim (Bool-cases (ltb i phys_tasks_space_end)) [
    | inr e ↦
        rw e (inl (record { address = refl; state = refl; full = λ b p q. absurd (ground arith) }))
    | inl e ↦ elim (Bool-cases (get_page_from_bitmap pages_bitmap i s == 0)) [
      | inl z ↦
          rw (e, z)
            (inr (record {
              low = omega arith;
              high = ltb→lt i _ e;
              aligned = a;
              free = (==_iff _ 0).0 z;
              first = λ b p q. absurd (omega arith);
              state = refl;
            }))
      | inr z ↦
          rw (e, z) (later z (alloc_page_from_lem fuel (i + page_size) (omega arith) (omega arith)))
    ]
  ]
    where
      later :
          (get_page_from_bitmap pages_bitmap i s == 0) ≡ false
          → Exhausted (i + page_size) s (alloc_page_from fuel pt l (i + page_size) s)
            ⊎ FirstFit pt l (i + page_size) s (alloc_page_from fuel pt l (i + page_size) s)
          → Exhausted i s (alloc_page_from fuel pt l (i + page_size) s)
            ⊎ FirstFit pt l i s (alloc_page_from fuel pt l (i + page_size) s)
      later z (inl x) = inl (record {
        address = x.address;
        state = x.state;
        full = Taken-step i _ a (ground arith) x.full;
      })
      later z (inr x) = inr (record {
        low = omega (arith, x.low);
        high = x.high;
        aligned = x.aligned;
        free = x.free;
        first = Taken-step i _ a (ground arith) x.first;
        state = x.state;
      })

  -- `alloc_page` either finds every user page taken, returns 0 and changes nothing, or returns the
  -- lowest free user page, page aligned, with the state that `bind_page` makes of it.
  pub alloc_page_lem :
      Exhausted phys_tasks_space_start s (alloc_page pt l s)
      ⊎ FirstFit pt l phys_tasks_space_start s (alloc_page pt l s)
  unfolding alloc_page
  alloc_page_lem =
      alloc_page_from_lem alloc_rounds phys_tasks_space_start (omega arith) (omega arith)

user_page :
    (pt l : ℕ) (s : Mmu) (out : ℕ × Mmu)
    → protected_linear l s ≡ false
    → IsWords s
    → FirstFit pt l phys_tasks_space_start s out
    → Bound pt l out.0 s out.1
user_page pt l s out h w f =
    let low = f.low in
    let high = f.high in
    let user : protected_phys out.0 s ≡ false = ground arith in
    rw f.state (bind_page_lem pt l out.0 s h user (omega arith) w)

-- Two calls of `alloc_page` in a row that both find a page, in a bitmap of 32-bit words, the first for
-- an unguarded linear address, find different pages.
pub alloc_page-ne :
    (pt l pt' l' : ℕ) (s : Mmu)
    → protected_linear l s ≡ false
    → IsWords s
    → (alloc_page pt l s).0 ≢ 0
    → (alloc_page pt' l' (alloc_page pt l s).1).0 ≢ 0
    → page (alloc_page pt' l' (alloc_page pt l s).1).0 ≢ page (alloc_page pt l s).0
alloc_page-ne pt l pt' l' s h w n m = elim (alloc_page_lem pt l s) [
  | inl x ↦ absurd (n x.address)
  | inr f ↦ elim (alloc_page_lem pt' l' (alloc_page pt l s).1) [
    | inl y ↦ absurd (m y.address)
    | inr g ↦ λ e.
        let marked =
          (user_page pt l s (alloc_page pt l s) h w f).marks
            (alloc_page pt' l' (alloc_page pt l s).1).0 in
        let free = g.free in ground arith
  ]
]

-- For a guarded linear address `alloc_page` returns the page and does not mark it: nothing changes.
pub alloc_page_protected :
    (pt l : ℕ) (s : Mmu) → protected_linear l s ≡ true → (alloc_page pt l s).1 ≡ s
alloc_page_protected pt l s h = elim (alloc_page_lem pt l s) [
  | inl x ↦ x.state
  | inr f ↦
      f.state ∙ (bind-unbind_protected pt l (alloc_page pt l s).0 simple_page_bitmap_callback s h).0
]

extended-callback :
    (a l v : ℕ) (s : Mmu) → (extended_kernel_bitmap_callback a l v s).extended ≡ s.extended
unfolding extended_kernel_bitmap_callback
extended-callback a l v s = ground (
  arith,
  set_page-extended extended_kernel_pages_bitmap (u32 (l + 2 ^ 32 - kernel_extended_start)) (u8 v)
      s,
)

extended-bind :
    (pt l p : ℕ) (s : Mmu)
    → (bind_page pt l p extended_kernel_bitmap_callback s).extended ≡ s.extended
unfolding bind_page write_pte
extended-bind pt l p s = elim (Bool-cases (protected_linear l s || protected_phys p s)) [
  | inl e ↦ rw e refl
  | inr e ↦ rw e (extended-callback p l 1 (write_pte pt l p s))
]

extended_first :
    (fuel pt p : ℕ) (s : Mmu)
    → get_page_from_bitmap extended_kernel_pages_bitmap 0 s ≡ 0
    → (alloc_page_extended_from (suc fuel) pt p kernel_extended_start s).0 ≡ kernel_extended_start
unfolding alloc_page_extended_from
extended_first fuel pt p s h = rw h refl

extended_kept :
    (fuel pt p : ℕ) (s : Mmu)
    → get_page_from_bitmap extended_kernel_pages_bitmap 0 s ≡ 0
    → (alloc_page_extended_from (suc fuel) pt p kernel_extended_start s).1.extended ≡ s.extended
unfolding alloc_page_extended_from
extended_kept fuel pt p s h = rw h (extended-bind pt kernel_extended_start p s)

get_extended :
    (s s' : Mmu)
    → s'.extended ≡ s.extended
    → get_page_from_bitmap extended_kernel_pages_bitmap 0 s'
      ≡ get_page_from_bitmap extended_kernel_pages_bitmap 0 s
unfolding get_page_from_bitmap
get_extended s s' e = rw e refl

-- While the first extended page is free, `alloc_page_extended` returns it on every call: a second
-- call, whatever its table and physical address, returns the page that the first one returned.
pub alloc_page_extended_repeats :
    (pt p pt' p' : ℕ) (s : Mmu)
    → get_page_from_bitmap extended_kernel_pages_bitmap 0 s ≡ 0
    → ((alloc_page_extended pt p s).0 ≡ kernel_extended_start)
      × ((alloc_page_extended pt' p' (alloc_page_extended pt p s).1).0 ≡ kernel_extended_start)
unfolding alloc_page_extended
alloc_page_extended_repeats pt p pt' p' s h =
    let s' = (alloc_page_extended pt p s).1 in
    let again = get_extended s s' (extended_kept 131072 pt p s h) ∙ h in
    (extended_first 131072 pt p s h, extended_first 131072 pt' p' s' again)
