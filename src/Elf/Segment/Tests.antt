-- ===== src/Elf/Segment/Tests.antt =====
-- A processor whose linear addresses are the places of the bytes, and a file in memory.
use rubi_kernel.Prelude.{ℕ, refl, inl, ◌==◌, ◌||◌, if◌then◌else◌, update, Run, ok, arith}
use rubi_kernel.Klib.Text.{Mem}
use rubi_kernel.Memory.Mmu.{Mmu}
use rubi_kernel.Sched.Tests.{three}
use rubi_kernel.Sched.Switch.Tests.{machine}
use rubi_kernel.Elf.{Loader, load_segment}
use rubi_kernel.Elf.Segment.{Paging, SegmentLoaded, load_segment_lem}

-- a segment of two bytes, at 0x1000, behind its header
abbrev image : Mem
image a =
    if a == 3004
    then 64
    else if a == 3009
    then 16
    else if (a == 3016) || (a == 3020)
    then 2
    else if a == 3064
    then 7
    else if a == 3065
    then 9
    else 0

abbrev identity : Mmu → (page_dir addr byte : ℕ) → (ℕ → ℕ) → Run (ℕ → ℕ)
identity mmu page_dir addr byte w = ok (update w addr byte)

identity_paging : Paging identity
identity_paging = record {
  IsMapped = λ mmu page_dir addr. Unit {0};
  frame_of = λ mmu page_dir addr. addr;
  peek = λ w. w;
  stored = λ mmu page_dir addr byte w m. (update w addr byte, refl, λ x. refl);
}

abbrev before_segment : Loader (ℕ → ℕ)
before_segment = record {
  machine = record (machine three) { mem = image };
  task_mem = record { pages = 8000; pages_count = 0; page_dir = 5000; page_table = 9000 };
  world = λ a. 0;
}

load_segment_lem_example :
    SegmentLoaded identity identity_paging 3000 3000 before_segment
      (load_segment identity 3000 3000 before_segment)
unfolding identity_paging
load_segment_lem_example =
    load_segment_lem identity identity_paging 3000 3000 before_segment (omega arith) (omega arith)
      (omega arith) (inl (omega arith)) (inl (omega arith)) (omega arith)
      (λ k a b. tt, λ j k a b c. omega (arith, b, c))
