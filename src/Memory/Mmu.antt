-- ===== src/Memory/Mmu.antt =====
-- kernel/src/kernel/memory/mmu.c: the two page bitmaps, page directories and page tables.
-- A bitmap is a function from word indices, so a write past the end of an array is seen as such.
-- Directory and table entries are cells of memory, found by the address of the entry, so that
-- `pt[PTE]` is the cell at `pt + 4 * PTE`. What `klog` prints is kept as a list, newest first.
pub mod Alloc
pub mod Marking
pub mod Binding
pub mod Init
pub mod Tests
use rubi_kernel.Prelude.{
  ℕ, zero, suc, ◌+◌, ◌-◌, ◌*◌, ◌/◌, ◌%◌, ◌^◌, bit_and, bit_or, Bool, ◌&&◌, ◌||◌, List, ◌∷◌, ltb,
  ◌==◌, if◌then◌else◌, u8, u32, update,
}
use rubi_kernel.Bits.{bit, clear_mask}
use rubi_kernel.Memory.Layout.{
  virt_base, page_size, phys, table_bit_field, kernel_extended_tables, kernel_pages_end,
  kernel_extended_start, kernel_extended_end, phys_tasks_space_start, phys_tasks_space_end,
  mm_bitmap_tables, mm_bitmap_int_per_table,
}

pub record PageDirectoryEntry : Type 0 where
  pub present : ℕ
  pub read_write : ℕ
  pub user_supervisor : ℕ
  pub write_through : ℕ
  pub cache_disabled : ℕ
  pub accessed : ℕ
  pub zero_bit : ℕ
  pub page_size_bit : ℕ
  pub ignored : ℕ
  pub available : ℕ
  pub page_table_addr : ℕ

pub record PageTableEntry : Type 0 where
  pub present : ℕ
  pub read_write : ℕ
  pub user_supervisor : ℕ
  pub write_through : ℕ
  pub cache_disabled : ℕ
  pub accessed : ℕ
  pub dirty : ℕ
  pub zero_bit : ℕ
  pub global : ℕ
  pub available : ℕ
  pub page_phys_addr : ℕ

-- the two global bitmaps
pub data Bitmap : Type 0 where
  extended_kernel_pages_bitmap pages_bitmap : Bitmap

-- the messages of the bitmap callbacks, with `phys_addr`, `linear_addr` and `set`
pub data LogLine : Type 0 where
  failed_main : ℕ → ℕ → ℕ → LogLine
  success_extended : ℕ → ℕ → ℕ → LogLine
  failed_extended : ℕ → ℕ → ℕ → LogLine

pub record Mmu : Type 0 where
  pub extended : ℕ → ℕ
  pub pages : ℕ → ℕ
  pub kernel_pages_operations : ℕ
  pub directory : ℕ → PageDirectoryEntry
  pub table : ℕ → PageTableEntry
  pub kernel_page_directory : ℕ
  pub kernel_page_table : ℕ
  pub log : List LogLine

abbrev pub BitmapCallback : Type 0
BitmapCallback = ℕ → ℕ → ℕ → Mmu → Mmu

abbrev pub words : Bitmap → Mmu → ℕ → ℕ
words extended_kernel_pages_bitmap s = s.extended
words pages_bitmap s = s.pages

-- `addr >> (12 + 5)` and `(addr >> 12) & 0b11111`
abbrev pub word_index : ℕ → ℕ
word_index addr = addr / 2 ^ 17

abbrev pub bit_index : ℕ → ℕ
bit_index addr = addr / 2 ^ 12 % 2 ^ 5

unfoldable pub get_page_from_bitmap : Bitmap → ℕ → Mmu → ℕ
get_page_from_bitmap b addr s = bit (words b s (word_index addr)) (bit_index addr)

-- The `bitmap` argument is not used: the code writes `pages_bitmap` in both branches.
unfoldable pub set_page_to_bitmap : Bitmap → ℕ → ℕ → Mmu → Mmu
set_page_to_bitmap b addr value s =
    let i = word_index addr in
    if value == 0
    then record s {
      pages = update s.pages i (bit_and (s.pages i) (clear_mask 32 (bit_index addr)));
    }
    else record s { pages = update s.pages i (bit_or (s.pages i) (2 ^ bit_index addr)) }

-- `set` goes through a uint8_t parameter.
unfoldable pub simple_page_bitmap_callback : BitmapCallback
simple_page_bitmap_callback phys_addr linear_addr set_to s =
    if ltb (word_index phys_addr) (mm_bitmap_int_per_table * mm_bitmap_tables)
    then set_page_to_bitmap pages_bitmap phys_addr (u8 set_to) s
    else record s { log = failed_main phys_addr linear_addr set_to ∷ s.log }

unfoldable pub extended_kernel_bitmap_callback : BitmapCallback
extended_kernel_bitmap_callback phys_addr linear_addr set_to s =
    let offset = u32 (linear_addr + 2 ^ 32 - kernel_extended_start) in
    if ltb (word_index offset) (mm_bitmap_int_per_table * kernel_extended_tables)
    then (let s' = set_page_to_bitmap extended_kernel_pages_bitmap offset (u8 set_to) s in
        record s' { log = success_extended phys_addr linear_addr set_to ∷ s'.log })
    else record s { log = failed_extended phys_addr linear_addr set_to ∷ s.log }

-- The linear address is inside the kernel's tables, and the lock is on.
abbrev pub protected_linear : ℕ → Mmu → Bool
protected_linear l s = ltb virt_base l && ltb l kernel_pages_end && (s.kernel_pages_operations == 0)

abbrev pub protected_phys : ℕ → Mmu → Bool
protected_phys p s = ltb p (phys kernel_pages_end) && (s.kernel_pages_operations == 0)

-- the address of `pd[liner_addr >> 22]`
abbrev pub pde_at : ℕ → ℕ → ℕ
pde_at pd liner_addr = pd + 4 * (liner_addr / 2 ^ 22)

-- the address of `pt[(liner_addr & TABLE_BIT_FIELD) >> 12]`
abbrev pub pte_at : ℕ → ℕ → ℕ
pte_at pt liner_addr = pt + 4 * (bit_and liner_addr table_bit_field / 2 ^ 12)

unfoldable pub bind_table : (pd pt liner_addr : ℕ) → Mmu → Mmu
bind_table pd pt liner_addr s =
    if protected_linear liner_addr s
    then s
    else (let e = s.directory (pde_at pd liner_addr) in
        record s {
          directory = update s.directory (pde_at pd liner_addr) (record e {
            present = 1;
            read_write = 1;
            user_supervisor = 0;
            page_table_addr = phys pt / 2 ^ 12;
          });
        })

-- the entry writes of `bind_page`
unfoldable pub write_pte : (pt liner_addr phys_addr : ℕ) → Mmu → Mmu
write_pte pt liner_addr phys_addr s =
    let e = s.table (pte_at pt liner_addr) in
    record s {
      table = update s.table (pte_at pt liner_addr) (record e {
        present = 1;
        read_write = 1;
        user_supervisor = 0;
        page_phys_addr = phys_addr / 2 ^ 12;
      });
    }

unfoldable pub bind_page : (pt liner_addr phys_addr : ℕ) → BitmapCallback → Mmu → Mmu
bind_page pt liner_addr phys_addr bm_callb s =
    if protected_linear liner_addr s || protected_phys phys_addr s
    then s
    else bm_callb phys_addr liner_addr 1 (write_pte pt liner_addr phys_addr s)

unfoldable pub bind_addr : (pd pt liner_addr phys_addr : ℕ) → BitmapCallback → Mmu → Mmu
bind_addr pd pt liner_addr phys_addr bm_callb s =
    bind_page pt liner_addr phys_addr bm_callb (bind_table pd pt liner_addr s)

-- the entry writes of `unbind_page`
unfoldable pub reset_pte : (pt liner_addr : ℕ) → Mmu → Mmu
reset_pte pt liner_addr s =
    let e = s.table (pte_at pt liner_addr) in
    record s {
      table = update s.table (pte_at pt liner_addr) (record e { present = 0; page_phys_addr = 0 });
    }

-- The callback runs before the entry is reset.
unfoldable pub unbind_page : (pt liner_addr : ℕ) → BitmapCallback → Mmu → Mmu
unbind_page pt liner_addr bm_callb s =
    if protected_linear liner_addr s
    then s
    else (let frame = (s.table (pte_at pt liner_addr)).page_phys_addr in
        reset_pte pt liner_addr (bm_callb (u32 (frame * 2 ^ 12)) liner_addr 0 s))

unfoldable pub unbind_table : (pd liner_addr : ℕ) → Mmu → Mmu
unbind_table pd liner_addr s =
    if protected_linear liner_addr s
    then s
    else (let e = s.directory (pde_at pd liner_addr) in
        record s {
          directory =
              update s.directory (pde_at pd liner_addr) (record e {
                present = 0;
                read_write = 1;
                user_supervisor = 0;
                page_table_addr = 0;
              });
        })

-- The loop of `alloc_page` from address `i`, with fuel.
unfoldable pub alloc_page_from : ℕ → (pt liner_addr i : ℕ) → Mmu → ℕ × Mmu
alloc_page_from zero pt liner_addr i s = (0, s)
alloc_page_from (suc fuel) pt liner_addr i s =
    let next = alloc_page_from fuel pt liner_addr (i + page_size) s in
    if ltb i phys_tasks_space_end
    then if get_page_from_bitmap pages_bitmap i s == 0
      then (i, bind_page pt liner_addr i simple_page_bitmap_callback s)
      else next
    else (0, s)

-- one round for each page of the user space, and one for the test that ends the loop
abbrev pub alloc_rounds : ℕ
alloc_rounds = 8193

unfoldable pub alloc_page : (pt liner_addr : ℕ) → Mmu → ℕ × Mmu
alloc_page pt liner_addr s = alloc_page_from alloc_rounds pt liner_addr phys_tasks_space_start s

-- The loop of `alloc_page_extended`. `i` is an int there, compared as a size_t.
unfoldable pub alloc_page_extended_from : ℕ → (pt phys_addr i : ℕ) → Mmu → ℕ × Mmu
alloc_page_extended_from zero pt phys_addr i s = (0, s)
alloc_page_extended_from (suc fuel) pt phys_addr i s =
    let next = alloc_page_extended_from fuel pt phys_addr (i + page_size) s in
    if ltb i kernel_extended_end
    then if get_page_from_bitmap extended_kernel_pages_bitmap (i - kernel_extended_start) s == 0
      then (i, bind_page pt i phys_addr extended_kernel_bitmap_callback s)
      else next
    else (0, s)

abbrev pub alloc_extended_rounds : ℕ
alloc_extended_rounds = 131073

unfoldable pub alloc_page_extended : (pt phys_addr : ℕ) → Mmu → ℕ × Mmu
alloc_page_extended pt phys_addr s =
    alloc_page_extended_from alloc_extended_rounds pt phys_addr kernel_extended_start s
