-- ===== src/Memory/Mmu/Binding.antt =====
-- Binding and unbinding pages: what is guarded, what is undone.
use rubi_kernel.Prelude.{
  ℕ, ◌*◌, ◌/◌, ◌^◌, ◌≡◌, refl, ap, ◌∙◌, true, false, arith, ==_refl, ap, ◌∙◌, ◌==◌, if◌then◌else◌,
  u32,
}
use rubi_kernel.Memory.Mmu.{
  pages_bitmap, Mmu, BitmapCallback, protected_linear, protected_phys, pte_at, get_page_from_bitmap,
  set_page_to_bitmap, write_pte, reset_pte, simple_page_bitmap_callback, bind_page, unbind_page,
}
use rubi_kernel.Memory.Mmu.Marking.{
  IsWords, Tracked, page, get-page, get-set_page, set_page-IsWords, set_page-rest,
  simple_callback_lem,
}

-- With the lock on, a linear address inside the kernel's tables is neither bound nor unbound.
pub bind-unbind_protected :
    (pt l p : ℕ) (cb : BitmapCallback) (s : Mmu)
    → protected_linear l s ≡ true
    → (bind_page pt l p cb s ≡ s) × (unbind_page pt l cb s ≡ s)
unfolding bind_page unbind_page
bind-unbind_protected pt l p cb s h = (rw h refl, rw h refl)

write_pte_lem :
    (pt l p : ℕ) (s : Mmu)
    → (((write_pte pt l p s).table (pte_at pt l)).present ≡ 1)
      × (((write_pte pt l p s).table (pte_at pt l)).page_phys_addr ≡ p / 2 ^ 12)
      × ((b : ℕ)
          → get_page_from_bitmap pages_bitmap b (write_pte pt l p s)
            ≡ get_page_from_bitmap pages_bitmap b s)
unfolding write_pte get_page_from_bitmap
write_pte_lem pt l p s = rw (==_refl (pte_at pt l)) (refl, refl, λ b. refl)

write_pte-rest :
    (pt l p : ℕ) (s : Mmu)
    → ((write_pte pt l p s).pages ≡ s.pages)
      × ((write_pte pt l p s).kernel_pages_operations ≡ s.kernel_pages_operations)
unfolding write_pte
write_pte-rest pt l p s = (refl, refl)

-- what `bind_page` leaves of `s` when it maps `l` to the frame at `p`
pub record Bound (pt l p : ℕ) (s s' : Mmu) : Type 0 where
  pub present : (s'.table (pte_at pt l)).present ≡ 1
  pub frame : (s'.table (pte_at pt l)).page_phys_addr ≡ p / 2 ^ 12
  pub marks :
      (b : ℕ)
      → get_page_from_bitmap pages_bitmap b s'
        ≡ (if page p == page b then 1 else get_page_from_bitmap pages_bitmap b s)
  pub in_words : IsWords s'
  pub lock : s'.kernel_pages_operations ≡ s.kernel_pages_operations

pub bind_unguarded :
    (pt l p : ℕ) (s : Mmu)
    → protected_linear l s ≡ false
    → protected_phys p s ≡ false
    → Tracked p
    → bind_page pt l p simple_page_bitmap_callback s
      ≡ set_page_to_bitmap pages_bitmap p 1 (write_pte pt l p s)
unfolding bind_page
bind_unguarded pt l p s hl hp t = rw (hl, hp) (simple_callback_lem p l 1 (write_pte pt l p s) t)

-- Outside the guarded ranges, for a frame that the bitmap of 32-bit words covers, `bind_page` makes
-- the entry present, maps it to the frame, marks the frame's page, changes no other page's mark, and
-- keeps the words of the bitmap and the lock.
pub bind_page_lem :
    (pt l p : ℕ) (s : Mmu)
    → protected_linear l s ≡ false
    → protected_phys p s ≡ false
    → Tracked p
    → IsWords s
    → Bound pt l p s (bind_page pt l p simple_page_bitmap_callback s)
bind_page_lem pt l p s hl hp t w =
    let m = write_pte pt l p s in
    let made = write_pte_lem pt l p s in
    let kept = write_pte-rest pt l p s in
    let set_rest = set_page-rest pages_bitmap p 1 m in
    let wm : IsWords m = λ i. rw kept.0 (w i) in
    rw (bind_unguarded pt l p s hl hp t) (record {
      present = rw set_rest.0 made.0;
      frame = rw set_rest.0 made.1;
      marks = λ b. rw (get-set_page pages_bitmap p b 1 m wm, made.2 b) refl;
      in_words = set_page-IsWords pages_bitmap p 1 m wm;
      lock = set_rest.1 ∙ kept.1;
    })

reset_pte_lem :
    (pt l : ℕ) (s : Mmu)
    → (((reset_pte pt l s).table (pte_at pt l)).present ≡ 0)
      × ((b : ℕ)
          → get_page_from_bitmap pages_bitmap b (reset_pte pt l s)
            ≡ get_page_from_bitmap pages_bitmap b s)
unfolding reset_pte get_page_from_bitmap
reset_pte_lem pt l s = rw (==_refl (pte_at pt l)) (refl, λ b. refl)

unbind_unguarded :
    (pt l q : ℕ) (s : Mmu)
    → protected_linear l s ≡ false
    → (s.table (pte_at pt l)).page_phys_addr * 2 ^ 12 ≡ q
    → Tracked q
    → unbind_page pt l simple_page_bitmap_callback s
      ≡ reset_pte pt l (set_page_to_bitmap pages_bitmap q 0 s)
unfolding unbind_page
unbind_unguarded pt l q s hl e t =
    let e' : u32 ((s.table (pte_at pt l)).page_phys_addr * 2 ^ 12) ≡ q = omega arith in
    rw (hl, e') (ap (reset_pte pt l) (simple_callback_lem q l 0 s t))

protected_lock :
    (l : ℕ) (s s' : Mmu)
    → s'.kernel_pages_operations ≡ s.kernel_pages_operations
    → protected_linear l s' ≡ protected_linear l s
protected_lock l s s' e = rw e refl

-- Outside the guarded ranges, for a free frame that the bitmap of 32-bit words covers, `unbind_page`
-- after `bind_page` makes the entry absent, and every page is marked as it was before both.
pub unbind-bind :
    (pt l p : ℕ) (s : Mmu)
    → protected_linear l s ≡ false
    → protected_phys p s ≡ false
    → Tracked p
    → IsWords s
    → get_page_from_bitmap pages_bitmap p s ≡ 0
    → let s' =
        unbind_page pt l simple_page_bitmap_callback
          (bind_page pt l p simple_page_bitmap_callback s) in
      ((s'.table (pte_at pt l)).present ≡ 0)
      × ((b : ℕ) → get_page_from_bitmap pages_bitmap b s' ≡ get_page_from_bitmap pages_bitmap b s)
unbind-bind pt l p s hl hp t w free =
    let s1 = bind_page pt l p simple_page_bitmap_callback s in
    let done : Bound pt l p s s1 = bind_page_lem pt l p s hl hp t w in
    let q = p / 2 ^ 12 * 2 ^ 12 in
    let back =
      unbind_unguarded pt l q s1 (protected_lock l s s1 done.lock ∙ hl) (rw done.frame refl)
        (omega arith) in
    let reset = reset_pte_lem pt l (set_page_to_bitmap pages_bitmap q 0 s1) in
    rw back (
      reset.0,
      λ b.
          reset.1 b
          ∙ get-set_page pages_bitmap q b 0 s1 done.in_words
          ∙ ground (arith, done.marks b, get-page p b s),
    )
