-- ===== src/Elf/Segment.antt =====
-- What is in the frames of a task once a segment was loaded.
pub mod Tests
use rubi_kernel.Prelude.{
  ℕ, zero, suc, ◌+◌, ◌*◌, ◌^◌, ◌≤◌, ◌<◌, ◌≡◌, ◌≢◌, ◌⊎◌, ◌∙◌, refl, sym, ap, false, true, inl, inr,
  ◌==◌, if◌then◌else◌, ==_iff, ==_refl, Bool-cases, for_range, for_range-zero, for_range-suc, u32,
  Run, ok, ◌>>=◌, arith,
}
use rubi_kernel.Klib.Text.{Mem, read32}
use rubi_kernel.Memory.Mmu.{Mmu}
use rubi_kernel.Elf.{
  Loader, p_offset, p_vaddr, p_filesz, p_memsz, pages_for, add_page, store_bytes, fill_segment,
  load_segment,
}

-- What the code relies on of the processor: a linear address that the directory maps stands for a byte of a
-- frame, and a store to it changes that byte only.
pub record Paging {W : Type 0} (store : Mmu → (page_dir addr byte : ℕ) → W → Run W) : Type 1 where
  pub IsMapped : Mmu → (page_dir addr : ℕ) → Type 0
  pub frame_of : Mmu → (page_dir addr : ℕ) → ℕ
  pub peek : W → ℕ → ℕ
  pub stored :
      (mmu : Mmu) (page_dir addr byte : ℕ) (w : W)
      → IsMapped mmu page_dir addr
      → (w' : W) × (store mmu page_dir addr byte w ≡ ok w')
        × ((x : ℕ) → peek w' x ≡ (if frame_of mmu page_dir addr == x then byte else peek w x))

-- the `n` bytes from `x` on are not of the range from `lo` to `hi`
abbrev pub Outside : (lo hi x n : ℕ) → Type 0
Outside lo hi x n = (x + n ≤ lo) ⊎ (hi ≤ x)

word_same :
    (m m' : Mem) (a : ℕ) → ((k : ℕ) → k < 4 → m' (a + k) ≡ m (a + k)) → read32 m' a ≡ read32 m a
word_same m m' a same =
    let first : m' a ≡ m a = ap m' (omega arith) ∙ same 0 (omega arith) ∙ ap m (omega arith) in
    omega (arith, first, same 1 (omega arith), same 2 (omega arith), same 3 (omega arith))

-- the number of bytes that a segment stores
abbrev pub stored_size : (h : ℕ) → Mem → ℕ
stored_size h m = if p_filesz m h == 0 then p_memsz m h else p_filesz m h

-- the byte of a segment with the bytes of the file at `section`
abbrev pub segment_byte : (h section : ℕ) → Mem → ℕ → ℕ
segment_byte h section m k = if p_filesz m h == 0 then 0 else m (section + k)

module _ {W : Type 0} where
  -- the rounds over the pages write to the array of pages only
  pages_keep :
      (rounds first h : ℕ) (s : Loader W) (x : ℕ)
      → s.task_mem.pages + 4 * (s.task_mem.pages_count + rounds) ≤ 2 ^ 32
      → Outside
          (s.task_mem.pages + 4 * s.task_mem.pages_count)
          (s.task_mem.pages + 4 * (s.task_mem.pages_count + rounds))
          x
          1
      → (for_range rounds first (add_page h) s).machine.mem x ≡ s.machine.mem x
  unfolding add_page
  pages_keep zero first h s x low o = rw (for_range-zero first (add_page h) s) refl
  pages_keep (suc rounds) first h s x low o =
      let t = s.task_mem in
      let s1 = add_page h first s in
      let count : s1.task_mem.pages_count ≡ t.pages_count + 1 = omega arith in
      let at : u32 (t.pages + 4 * t.pages_count) ≡ t.pages + 4 * t.pages_count = omega arith in
      let here : s1.machine.mem x ≡ s.machine.mem x = elim o [
        | inl p ↦ rw at (ground arith)
        | inr p ↦ rw at (ground arith)
      ] in
      let rest : Outside (t.pages + 4 * s1.task_mem.pages_count)
          (t.pages + 4 * (s1.task_mem.pages_count + rounds)) x 1 =
        elim o [ inl p ↦ inl (omega arith) | inr p ↦ inr (omega arith) ] in
      rw (for_range-suc rounds first (add_page h) s)
        (pages_keep rounds (first + 1) h s1 x (omega arith) rest ∙ here)

  pages_dir :
      (rounds first h : ℕ) (s : Loader W)
      → ((for_range rounds first (add_page h) s).task_mem.page_dir ≡ s.task_mem.page_dir)
        × ((for_range rounds first (add_page h) s).world ≡ s.world)
  unfolding add_page
  pages_dir zero first h s = rw (for_range-zero first (add_page h) s) (refl, refl)
  pages_dir (suc rounds) first h s =
      rw (for_range-suc rounds first (add_page h) s)
        (pages_dir rounds (first + 1) h (add_page h first s))

  module _ (store : Mmu → (page_dir addr byte : ℕ) → W → Run W) (paging : Paging store) (mmu : Mmu)
      (page_dir start : ℕ) where
    -- the place of a segment's byte in the frames
    abbrev pub place : ℕ → ℕ
    place k = paging.frame_of mmu page_dir (u32 (start + k))

    -- `n` addresses of a segment from the byte `i` on are mapped, to places that differ
    abbrev pub AreMapped : (i n : ℕ) → Type 0
    AreMapped i n =
        ((k : ℕ) → i ≤ k → k < i + n → paging.IsMapped mmu page_dir (u32 (start + k)))
        × ((j k : ℕ) → i ≤ j → j < k → k < i + n → place j ≢ place k)

    -- what `n` stores from the byte `i` on leave in the frames
    pub record Stored (i n : ℕ) (bytes : ℕ → ℕ) (w : W) (out : Run W) : Type 0 where
      pub world : W
      pub result : out ≡ ok world
      pub holds : (k : ℕ) → i ≤ k → k < i + n → paging.peek world (place k) ≡ bytes k
      pub kept :
          (x : ℕ)
          → ((k : ℕ) → i ≤ k → k < i + n → place k ≢ x)
          → paging.peek world x ≡ paging.peek w x

    -- `store_bytes` to mapped addresses with places that differ ends, and leaves each byte in its place.
    pub store_bytes_lem :
        (n i : ℕ) (bytes : ℕ → ℕ) (w : W)
        → AreMapped i n
        → Stored i n bytes w (store_bytes store n i start bytes mmu page_dir w)
    unfolding store_bytes
    store_bytes_lem zero i bytes w m = record {
      world = w;
      result = refl;
      holds = λ k a b. absurd (omega arith);
      kept = λ x h. refl;
    }
    store_bytes_lem (suc n) i bytes w m =
        let (w1, run, now) =
          paging.stored mmu page_dir (u32 (start + i)) (bytes i) w
            (m.0 i (omega arith) (omega arith)) in
        let ih = store_bytes_lem n (i + 1) bytes w1 (
          λ k a b. m.0 k (omega arith) (omega arith),
          λ j k a b c. m.1 j k (omega arith) b (omega arith),
        ) in
        record {
          world = ih.world;
          result = rw run ih.result;
          holds = λ k a b. elim (Bool-cases (k == i)) [
            | inl e ↦
                let here : k ≡ i = (==_iff k i).0 e in
                let own : paging.peek ih.world (place i) ≡ bytes i =
                  ih.kept (place i)
                    (λ j c d q. m.1 i j (omega arith) (omega arith) (omega arith) (sym q))
                  ∙ now (place i)
                  ∙ rw (==_refl (place i)) refl in
                rw here own
            | inr e ↦ ih.holds k (ground arith) (omega arith)
          ];
          kept = λ x h.
              let other : (place i == x) ≡ false =
                ground (arith, h i (omega arith) (omega arith), ==_iff (place i) x) in
              ih.kept x (λ k a b. h k (omega arith) (omega arith)) ∙ now x ∙ rw other refl;
        }

  -- the state with the pages of the segment
  abbrev pub with_pages : (h : ℕ) → Loader W → Loader W
  with_pages h s = for_range (pages_for (p_memsz s.machine.mem h)) 0 (add_page h) s

  -- `n` bytes from `x` on are not of the part of the array of pages that the segment fills
  abbrev pub FreeOfPages : (h : ℕ) → Loader W → (x n : ℕ) → Type 0
  FreeOfPages h s x n =
      let t = s.task_mem in
      Outside (t.pages + 4 * t.pages_count)
        (t.pages + 4 * (t.pages_count + pages_for (p_memsz s.machine.mem h))) x n

  module _ (store : Mmu → (page_dir addr byte : ℕ) → W → Run W) (paging : Paging store) (base h : ℕ)
      (s : Loader W) where
    -- where the segment's bytes are in the file, and in the frames
    abbrev pub section_of : ℕ
    section_of = u32 (base + p_offset s.machine.mem h)

    abbrev pub place_of : ℕ → ℕ
    place_of =
        place store paging (with_pages h s).machine.mmu s.task_mem.page_dir
          (p_vaddr s.machine.mem h)

    -- what the loader has done to the segment
    pub record SegmentLoaded (out : Run (Loader W)) : Type 0 where
      pub state : Loader W
      pub result : out ≡ ok state
      pub machine_same : state.machine ≡ (with_pages h s).machine
      pub task_mem_same : state.task_mem ≡ (with_pages h s).task_mem
      pub holds :
          (k : ℕ)
          → k < stored_size h s.machine.mem
          → paging.peek state.world (place_of k) ≡ segment_byte h section_of s.machine.mem k
      pub kept :
          (x : ℕ)
          → ((k : ℕ) → k < stored_size h s.machine.mem → place_of k ≢ x)
          → paging.peek state.world x ≡ paging.peek s.world x

    finish :
        (n : ℕ) (bytes : ℕ → ℕ) {out : Run W}
        → n ≡ stored_size h s.machine.mem
        → ((k : ℕ) → k < n → bytes k ≡ segment_byte h section_of s.machine.mem k)
        → Stored store paging
            (with_pages h s).machine.mmu
            s.task_mem.page_dir
            (p_vaddr s.machine.mem h)
            0
            n
            bytes
            s.world
            out
        → SegmentLoaded (out >>= λ w. ok (record (with_pages h s) { world = w }))
    finish n bytes e same r = record {
      state = record (with_pages h s) { world = r.world };
      result = rw r.result refl;
      machine_same = refl;
      task_mem_same = refl;
      holds = λ k b. r.holds k (omega arith) (omega arith) ∙ same k (omega arith);
      kept = λ x f. r.kept x (λ k a b. f k (omega arith));
    }

    -- When a segment is not empty, the array of pages is there and does not wrap, the part of it that the segment
    -- fills does not meet the segment's header nor its bytes in the file, and the addresses that are
    -- stored to are mapped once its pages are allocated, to places in the frames that differ: `load_segment`
    -- ends. Each byte of the segment in its frame is that of the file, or 0 for a segment that has none in
    -- the file, and no other byte of the frames changes.
    pub load_segment_lem :
        p_memsz s.machine.mem h ≢ 0
        → s.task_mem.pages ≢ 0
        → s.task_mem.pages + 4 * (s.task_mem.pages_count + pages_for (p_memsz s.machine.mem h))
          ≤ 2 ^ 32
        → FreeOfPages h s h 32
        → FreeOfPages h s section_of (p_filesz s.machine.mem h)
        → section_of + p_filesz s.machine.mem h ≤ 2 ^ 32
        → AreMapped store paging
            (with_pages h s).machine.mmu
            s.task_mem.page_dir
            (p_vaddr s.machine.mem h)
            0
            (stored_size h s.machine.mem)
        → SegmentLoaded (load_segment store base h s)
    unfolding load_segment fill_segment
    load_segment_lem size pages low head body fits mapped =
        let m = s.machine.mem in
        let n = pages_for (p_memsz m h) in
        let after = with_pages h s in
        let m1 = after.machine.mem in
        let same : (x : ℕ) → FreeOfPages h s x 1 → m1 x ≡ m x = λ x o. pages_keep n 0 h s x low o in
        let word : (i : ℕ) → i ≤ 28 → read32 m1 (h + i) ≡ read32 m (h + i) = λ i b.
          word_same m m1 (h + i) (λ k c.
            same (h + i + k)
              (elim head [ inl p ↦ inl (omega arith) | inr p ↦ inr (omega arith) ])) in
        let filesz = word 16 (omega arith) in
        let memsz = word 20 (omega arith) in
        let dir = pages_dir n 0 h s in
        let some_size : (p_memsz m h == 0) ≡ false = ground arith in
        let some_pages : (s.task_mem.pages == 0) ≡ false = ground arith in
        let mmu = after.machine.mmu in
        let start = p_vaddr m h in
        elim (Bool-cases (p_filesz m h == 0)) [
          | inl z ↦
              let run =
                store_bytes_lem store paging mmu s.task_mem.page_dir start (p_memsz m h) 0 (λ k. 0)
                  s.world (rw z at mapped) in
              rw (some_size, some_pages, filesz, z, memsz, dir.0, dir.1)
                (finish (p_memsz m h) (λ k. 0) (rw z refl) (λ k b. rw z refl) run)
          | inr z ↦
              let run =
                store_bytes_lem store paging mmu s.task_mem.page_dir start (p_filesz m h) 0
                  (λ k. m1 (u32 (section_of + k))) s.world (rw z at mapped) in
              rw (some_size, some_pages, filesz, z, dir.0, dir.1)
                (finish (p_filesz m h) (λ k. m1 (u32 (section_of + k))) (rw z refl)
                  (λ k b.
                    let at : u32 (section_of + k) ≡ section_of + k = omega arith in
                    rw (at, z)
                      (same (section_of + k)
                        (elim body [ inl p ↦ inl (omega arith) | inr p ↦ inr (omega arith) ])))
                  run)
        ]
