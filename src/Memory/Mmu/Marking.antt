-- ===== src/Memory/Mmu/Marking.antt =====
-- Marking pages in the bitmaps of mmu.c.
use rubi_kernel.Prelude.{
  ℕ, ◌*◌, ◌/◌, ◌^◌, ◌<◌, ◌≡◌, inl, inr, refl, true, false, arith, ==_iff, Bool-cases, ◌==◌, lt→ltb,
  ◌*◌, if◌then◌else◌, u8,
}
use rubi_kernel.Bits.{bit-bit_or, bit-bit_and_clear, bit_or-lt, bit_and_clear-lt}
use rubi_kernel.Memory.Layout.{mm_bitmap_tables, table_size}
use rubi_kernel.Memory.Mmu.{
  Bitmap, pages_bitmap, Mmu, word_index, bit_index, get_page_from_bitmap, set_page_to_bitmap,
  simple_page_bitmap_callback,
}

-- Every word of the page bitmap is a uint32_t.
abbrev pub IsWords : Mmu → Type 0
IsWords s = (i : ℕ) → s.pages i < 2 ^ 32

-- the number of the page at an address
abbrev pub page : ℕ → ℕ
page addr = addr / 2 ^ 12

page_eq : (a b : ℕ) → word_index a ≡ word_index b → bit_index a ≡ bit_index b → page a ≡ page b
page_eq a b p q = omega arith

word_eq : (a b : ℕ) → page a ≡ page b → word_index a ≡ word_index b
word_eq a b p = omega arith

get_other_word :
    (m : Bitmap) (a b v : ℕ) (s : Mmu)
    → (word_index a == word_index b) ≡ false
    → get_page_from_bitmap pages_bitmap b (set_page_to_bitmap m a v s)
      ≡ get_page_from_bitmap pages_bitmap b s
unfolding get_page_from_bitmap set_page_to_bitmap
get_other_word m a b v s h = elim (Bool-cases (v == 0)) [
  | inl e ↦ rw (e, h) refl
  | inr e ↦ rw (e, h) refl
]

get_same_word :
    (m : Bitmap) (a b v : ℕ) (s : Mmu)
    → IsWords s
    → (word_index a == word_index b) ≡ true
    → get_page_from_bitmap pages_bitmap b (set_page_to_bitmap m a v s) ≡ (
        if bit_index a == bit_index b
        then (if v == 0 then 0 else 1)
        else get_page_from_bitmap pages_bitmap b s)
unfolding get_page_from_bitmap set_page_to_bitmap
get_same_word m a b v s w h =
    let e : word_index a ≡ word_index b = (==_iff _ _).0 h in
    elim (Bool-cases (v == 0)) [
      | inl z ↦
          rw
            (
              z,
              h,
              bit-bit_and_clear 32 (bit_index a) (bit_index b) (s.pages (word_index a))
                  (omega arith) (w (word_index a)),
              e,
            )
            refl
      | inr z ↦ rw (z, h, bit-bit_or (bit_index a) (bit_index b) (s.pages (word_index a)), e) refl
    ]

-- In a bitmap of 32-bit words, marking or clearing a page, through either bitmap argument, sets what
-- the page bitmap says of that page and of no other.
pub get-set_page :
    (m : Bitmap) (a b v : ℕ) (s : Mmu)
    → IsWords s
    → get_page_from_bitmap pages_bitmap b (set_page_to_bitmap m a v s) ≡ (
        if page a == page b
        then (if v == 0 then 0 else 1)
        else get_page_from_bitmap pages_bitmap b s)
get-set_page m a b v s w = elim (Bool-cases (word_index a == word_index b)) [
  | inl e ↦ ground (arith, get_same_word m a b v s w e)
  | inr e ↦ ground (arith, get_other_word m a b v s e)
]

-- The page bitmap keeps 32-bit words.
pub set_page-IsWords :
    (m : Bitmap) (a v : ℕ) (s : Mmu) → IsWords s → IsWords (set_page_to_bitmap m a v s)
unfolding set_page_to_bitmap
set_page-IsWords m a v s w i = elim (Bool-cases (v == 0)) [
  | inl z ↦ rw z (
      ground (
        arith,
        w i,
        bit_and_clear-lt 32 (bit_index a) (s.pages (word_index a)) (omega arith) (w (word_index a)),
      ))
  | inr z ↦ rw z (
      ground (
        arith,
        w i,
        bit_or-lt 32 (bit_index a) (s.pages (word_index a)) (omega arith) (w (word_index a)),
      ))
]

-- The extended bitmap stays as it is, also where it is the argument.
pub set_page-extended :
    (m : Bitmap) (a v : ℕ) (s : Mmu) → (set_page_to_bitmap m a v s).extended ≡ s.extended
unfolding set_page_to_bitmap
set_page-extended m a v s = elim (Bool-cases (v == 0)) [ inl z ↦ rw z refl | inr z ↦ rw z refl ]

-- Nothing but the page bitmap is written.
pub set_page-rest :
    (m : Bitmap) (a v : ℕ) (s : Mmu)
    → ((set_page_to_bitmap m a v s).table ≡ s.table)
      × ((set_page_to_bitmap m a v s).kernel_pages_operations ≡ s.kernel_pages_operations)
unfolding set_page_to_bitmap
set_page-rest m a v s = elim (Bool-cases (v == 0)) [
  | inl z ↦ rw z (refl, refl)
  | inr z ↦ rw z (refl, refl)
]

-- The addresses that the page bitmap has words for: 64 MB.
abbrev pub Tracked : ℕ → Type 0
Tracked a = a < mm_bitmap_tables * table_size

pub simple_callback_lem :
    (a l v : ℕ) (s : Mmu)
    → Tracked a
    → simple_page_bitmap_callback a l v s ≡ set_page_to_bitmap pages_bitmap a (u8 v) s
unfolding simple_page_bitmap_callback
simple_callback_lem a l v s h = rw (lt→ltb (word_index a) 512 (omega arith)) refl

-- The mark is one of the whole page.
pub get-page :
    (a b : ℕ) (s : Mmu)
    → page a ≡ page b
    → get_page_from_bitmap pages_bitmap a s ≡ get_page_from_bitmap pages_bitmap b s
unfolding get_page_from_bitmap
get-page a b s e =
    let i : word_index a ≡ word_index b = omega arith in
    let j : bit_index a ≡ bit_index b = omega arith in rw (i, j) refl
