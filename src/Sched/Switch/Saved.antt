-- ===== src/Sched/Switch/Saved.antt =====
-- What the interrupt of a task saves is what its next turn restores, but for the flags.
use rubi_kernel.Prelude.{
  ℕ, ◌+◌, ◌*◌, ◌%◌, ◌^◌, ◌<◌, ◌≡◌, ◌∙◌, refl, sym, ap, ap₂, inr, bit_or, u16, arith,
}
use rubi_kernel.Bits.Fields.{bit_or-add}
use rubi_kernel.Klib.Text.{Mem, read32, write32}
use rubi_kernel.Klib.Text.Words.{
  read32-write32, write_words, AreWords, read32_apart, read32_above, word, read32-write_words,
}
use rubi_kernel.Sched.{GpRegisters, Task}
use rubi_kernel.Sched.Switch.{read_registers, words_of, save_task, down, load_task}

abbrev pub AreBytes : Mem → Type 0
AreBytes m = (a : ℕ) → m a < 256

read32_lt : (m : Mem) (a : ℕ) → AreBytes m → read32 m a < 2 ^ 32
read32_lt m a b = omega (arith, b a, b (a + 1), b (a + 2), b (a + 3))

abbrev flags_of : Task → ℕ
flags_of t = bit_or (u16 t.flags) 0x200

-- the three words that iret takes, pushed one after the other
abbrev with_flags : ℕ → Task → Mem → Mem
with_flags reg t m = write32 m (reg + 40) (flags_of t)

abbrev with_cs : ℕ → Task → Mem → Mem
with_cs reg t m = write32 (with_flags reg t m) (reg + 36) t.op_registers.cs

abbrev pushed : ℕ → Task → Mem → Mem
pushed reg t m = write32 (with_cs reg t m) (reg + 32) t.op_registers.eip

module _ (reg : ℕ) (t : Task) (m : Mem) (top : t.op_registers.u_esp ≡ reg + 44)
    (fits : reg + 44 < 2 ^ 32) where
  abbrev gp : GpRegisters
  gp = record t.gp_registers { esp = reg + 32 }

  loaded : load_task t m ≡ (
    record t { gp_registers = gp; op_registers = record t.op_registers { u_esp = reg } },
    write_words (pushed reg t m) reg (words_of gp),
  )
  unfolding load_task
  loaded =
      let d1 : down (reg + 44) 4 ≡ reg + 40 = omega arith in
      let d2 : down (reg + 40) 4 ≡ reg + 36 = omega arith in
      let d3 : down (reg + 36) 4 ≡ reg + 32 = omega arith in
      let d4 : down (reg + 32) 32 ≡ reg = omega arith in rw (load_task, top, d1, d2, d3, d4) refl

  abbrev out : Mem
  out = (load_task t m).1

  below_registers : (b : ℕ) → reg + 32 < b + 1 → read32 out b ≡ read32 (pushed reg t m) b
  below_registers b h =
      ap (λ r. read32 r.1 b) loaded
      ∙ read32_above (pushed reg t m) b reg (words_of gp) (omega arith)

  eip_word : t.op_registers.eip < 2 ^ 32 → read32 out (reg + 32) ≡ t.op_registers.eip
  eip_word h =
      below_registers (reg + 32) (omega arith)
      ∙ read32-write32 (with_cs reg t m) (reg + 32) t.op_registers.eip h

  cs_word : t.op_registers.cs < 2 ^ 32 → read32 out (reg + 36) ≡ t.op_registers.cs
  cs_word h =
      below_registers (reg + 36) (omega arith)
      ∙ read32_apart (with_cs reg t m) (reg + 36) (reg + 32) t.op_registers.eip (inr (omega arith))
      ∙ read32-write32 (with_flags reg t m) (reg + 36) t.op_registers.cs h

  flags_word : flags_of t < 2 ^ 32 → read32 out (reg + 40) ≡ flags_of t
  flags_word h =
      below_registers (reg + 40) (omega arith)
      ∙ read32_apart (with_cs reg t m) (reg + 40) (reg + 32) t.op_registers.eip (inr (omega arith))
      ∙ read32_apart (with_flags reg t m) (reg + 40) (reg + 36) t.op_registers.cs
          (inr (omega arith))
      ∙ read32-write32 m (reg + 40) (flags_of t) h

  register_word :
      (i : ℕ) → i < 8 → AreWords (words_of gp) → read32 out (reg + 4 * i) ≡ word (words_of gp) i
  register_word i h s =
      ap (λ r. read32 r.1 (reg + 4 * i)) loaded
      ∙ read32-write_words (pushed reg t m) reg i (words_of gp) h s

  registers_back :
      AreWords (words_of gp) → read_registers out reg ≡ record t.gp_registers { esp = reg + 32 }
  registers_back s =
      let e0 = ap (read32 out) zero_offset ∙ register_word 0 (omega arith) s in
      rw
        (
          e0,
          register_word 1 (omega arith) s,
          register_word 2 (omega arith) s,
          register_word 3 (omega arith) s,
          register_word 4 (omega arith) s,
          register_word 5 (omega arith) s,
          register_word 6 (omega arith) s,
          register_word 7 (omega arith) s,
        )
        refl
    where
      zero_offset : reg ≡ reg + 4 * 0
      zero_offset = omega arith

  stack_back : (load_task t m).0.op_registers.u_esp ≡ reg
  stack_back = ap (λ r. r.0.op_registers.u_esp) loaded

saved_top :
    (reg : ℕ) (m : Mem) (t : Task)
    → reg + 44 < 2 ^ 32
    → (save_task (reg + 32) reg m t).op_registers.u_esp ≡ reg + 44
unfolding save_task
saved_top reg m t h = omega arith

saved_words :
    (reg : ℕ) (m : Mem) (t : Task)
    → AreBytes m
    → reg + 44 < 2 ^ 32
    → AreWords (words_of (record (save_task (reg + 32) reg m t).gp_registers { esp = reg + 32 }))
unfolding save_task
saved_words reg m t b h = (
  read32_lt m reg b,
  (
    read32_lt m (reg + 4) b,
    (
      read32_lt m (reg + 8) b,
      (
        omega arith,
        (
          read32_lt m (reg + 16) b,
          (read32_lt m (reg + 20) b, (read32_lt m (reg + 24) b, (read32_lt m (reg + 28) b, tt))),
        ),
      ),
    ),
  ),
)

saved_cs :
    (reg : ℕ) (m : Mem) (t : Task)
    → (save_task (reg + 32) reg m t).op_registers.cs ≡ m (reg + 36) + m (reg + 37) * 2 ^ 8
unfolding save_task
saved_cs reg m t =
    let low : reg + 32 + 4 ≡ reg + 36 = omega arith in
    let high : reg + 32 + 5 ≡ reg + 37 = omega arith in ap₂ (λ a b. m a + m b * 2 ^ 8) low high

saved_flags :
    (reg : ℕ) (m : Mem) (t : Task)
    → (save_task (reg + 32) reg m t).flags ≡ bit_or (read32 m (reg + 38)) 0x200
unfolding save_task
saved_flags reg m t =
    let here : reg + 32 + 6 ≡ reg + 38 = omega arith in ap (λ a. bit_or (read32 m a) 0x200) here

half_word :
    (m : Mem) (reg : ℕ)
    → AreBytes m
    → read32 m (reg + 36) % 2 ^ 16 ≡ m (reg + 36) + m (reg + 37) * 2 ^ 8
half_word m reg b =
    let next : m (reg + 36 + 1) ≡ m (reg + 37) = ap m (omega arith) in
    omega (arith, next, b (reg + 36), b (reg + 37))

high_word :
    (m : Mem) (reg : ℕ)
    → m (reg + 38) ≡ 0
    → m (reg + 39) ≡ 0
    → read32 m (reg + 38) ≡ (m (reg + 40) + m (reg + 41) * 2 ^ 8) * 2 ^ 16
high_word m reg lo hi =
    let p1 : m (reg + 38 + 1) ≡ m (reg + 39) = ap m (omega arith) in
    let p2 : m (reg + 38 + 2) ≡ m (reg + 40) = ap m (omega arith) in
    let p3 : m (reg + 38 + 3) ≡ m (reg + 41) = ap m (omega arith) in
    omega (arith, p1, p2, p3, lo, hi)

-- A task is interrupted with its eight registers at `reg`, and eip and cs behind them at `reg + 32`, in a
-- memory of bytes; at its next turn the memory is any other one. Then the stack pointer that the switch is
-- given is `reg` again, and popad and iret find there the eight registers that were saved, with `reg + 32`
-- for esp, the eip that was saved and the lower half of the word of cs.
pub load-save :
    (reg : ℕ) (m m' : Mem) (t : Task)
    → AreBytes m
    → reg + 44 < 2 ^ 32
    → let r = load_task (save_task (reg + 32) reg m t) m' in
      (r.0.op_registers.u_esp ≡ reg)
      × (read_registers r.1 reg ≡ record (read_registers m reg) { esp = reg + 32 })
      × (read32 r.1 (reg + 32) ≡ read32 m (reg + 32))
      × (read32 r.1 (reg + 36) ≡ read32 m (reg + 36) % 2 ^ 16)
unfolding save_task
load-save reg m m' t b h =
    let s = save_task (reg + 32) reg m t in
    let top = saved_top reg m t h in
    let cs_half = saved_cs reg m t ∙ sym (half_word m reg b) in
    let cs_lt : s.op_registers.cs < 2 ^ 32 = rw cs_half (omega arith) in
    (
      stack_back reg s m' top h,
      registers_back reg s m' top h (saved_words reg m t b h),
      eip_word reg s m' top h (read32_lt m (reg + 32) b),
      cs_word reg s m' top h cs_lt ∙ cs_half,
    )

-- A task is interrupted with its eight registers at `reg`, and eip, cs and eflags behind them at `reg + 32`.
-- When the upper half of the word of cs is 0, the flags that it gets back at its next turn are 0x200 only,
-- whatever its flags were.
pub flags_lost :
    (reg : ℕ) (m m' : Mem) (t : Task)
    → reg + 44 < 2 ^ 32
    → m (reg + 38) ≡ 0
    → m (reg + 39) ≡ 0
    → read32 (load_task (save_task (reg + 32) reg m t) m').1 (reg + 40) ≡ 0x200
flags_lost reg m m' t h lo hi =
    let s = save_task (reg + 32) reg m t in
    let above = m (reg + 40) + m (reg + 41) * 2 ^ 8 in
    let saved : s.flags ≡ above * 2 ^ 16 + 0x200 =
      saved_flags reg m t
      ∙ ap (λ f. bit_or f 0x200) (high_word m reg lo hi)
      ∙ bit_or-add 16 above 0x200 (omega arith) in
    let low : u16 s.flags ≡ 0x200 = rw saved (omega arith) in
    let back : flags_of s ≡ 0x200 = ap (λ f. bit_or f 0x200) low in
    flags_word reg s m' (saved_top reg m t h) h (rw back (omega arith)) ∙ back
