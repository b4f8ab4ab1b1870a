-- ===== src/DescriptorTables/Idt.antt =====
-- kernel/src/kernel/DT/dt.c: idt_init, with pic_init and pic_enable of int.c. The handlers are addresses of
-- assembly routines, and `outb` writes to a port: the writes are kept, newest first.
use rubi_kernel.Prelude.{
  ℕ, ◌+◌, ◌*◌, ◌/◌, ◌%◌, ◌^◌, ◌<◌, ◌≡◌, refl, ◌∙◌, Bool, true, false, ◌||◌, List, ◌∷◌, ◌==◌,
  if◌then◌else◌, u32, update, Bool-cases, inl, inr, arith,
}
use rubi_kernel.DescriptorTables.{IdtEntry, idt_fill_entry}
use rubi_kernel.DescriptorTables.Encoding.{idt_fill_entry_lem}

abbrev pub idt_entries_count : ℕ
idt_entries_count = 256

-- a byte written to a port
pub record PortWrite : Type 0 where
  pub port : ℕ
  pub value : ℕ

unfoldable pub outb : (port value : ℕ) → List PortWrite → List PortWrite
outb port value out = record { port = port; value = value } ∷ out

abbrev pub pic1_cmd_port : ℕ
pic1_cmd_port = 0x20

abbrev pub pic1_data_port : ℕ
pic1_data_port = 0x21

abbrev pub pic2_cmd_port : ℕ
pic2_cmd_port = 0xA0

abbrev pub pic2_data_port : ℕ
pic2_data_port = 0xA1

-- `ICW1_INIT | ICW1_ICW4`
abbrev pub icw1_start : ℕ
icw1_start = 0x11

abbrev pub pic1_int_offset : ℕ
pic1_int_offset = 0x20

abbrev pub pic2_int_offset : ℕ
pic2_int_offset = 0x28

unfoldable pub pic_init : List PortWrite → List PortWrite
pic_init out =
    let o1 = outb pic2_cmd_port icw1_start (outb pic1_cmd_port icw1_start out) in
    let o2 = outb pic2_data_port pic2_int_offset (outb pic1_data_port pic1_int_offset o1) in
    let o3 = outb pic2_data_port 0x00 (outb pic1_data_port 0x00 o2) in
    let o4 = outb pic2_data_port 0x01 (outb pic1_data_port 0x01 o3) in
    outb pic2_data_port 0xff (outb pic1_data_port 0xff o4)

unfoldable pub pic_enable : List PortWrite → List PortWrite
pic_enable = outb pic1_data_port 0xFC

-- the addresses of the assembly routines
pub record Handlers : Type 0 where
  pub int_division_by_zero : ℕ
  pub int_double_fail : ℕ
  pub int_segment_not_present : ℕ
  pub int_general_protect : ℕ
  pub int_aligment_check : ℕ
  pub int_page_fault : ℕ
  pub int_timer : ℕ
  pub int_keyboard : ℕ
  pub int_syscall : ℕ

-- the table, the two words that idt_load was given, and the writes to the ports
pub record Idt : Type 0 where
  pub idt_table : ℕ → IdtEntry
  pub idt_ptr0 : ℕ
  pub idt_ptr1 : ℕ
  pub out : List PortWrite

abbrev pub interrupt_gate : ℕ
interrupt_gate = 0x8e

abbrev pub gdt_kcode_selector : ℕ
gdt_kcode_selector = 0x08

abbrev pub fill_gate : (offset handler : ℕ) → (ℕ → IdtEntry) → ℕ → IdtEntry
fill_gate offset handler table =
    update table offset (idt_fill_entry gdt_kcode_selector interrupt_gate handler)

-- the nine calls of idt_fill_entry
unfoldable pub fill_all : Handlers → (ℕ → IdtEntry) → ℕ → IdtEntry
fill_all h t0 =
    let t1 = fill_gate 0x0 h.int_division_by_zero t0 in
    let t2 = fill_gate 0x8 h.int_double_fail t1 in
    let t3 = fill_gate 0xB h.int_segment_not_present t2 in
    let t4 = fill_gate 0xD h.int_general_protect t3 in
    let t5 = fill_gate 0x11 h.int_aligment_check t4 in
    let t6 = fill_gate 0xE h.int_page_fault t5 in
    let t7 = fill_gate 0x20 h.int_timer t6 in
    let t8 = fill_gate 0x21 h.int_keyboard t7 in fill_gate 0x80 h.int_syscall t8

unfoldable pub idt_init : (idt_address : ℕ) → Handlers → Idt → Idt
idt_init idt_address h t = record t {
  out = pic_init t.out;
  idt_table = fill_all h t.idt_table;
  idt_ptr0 = u32 (8 * idt_entries_count + idt_address % 2 ^ 16 * 2 ^ 16);
  idt_ptr1 = idt_address / 2 ^ 16;
}

-- the address of a gate's handler
abbrev pub offset_of : IdtEntry → ℕ
offset_of e = e.offset_lowerbits + e.offset_higherbits * 2 ^ 16

-- the handler that an exception or an interrupt is meant to have
abbrev pub handler_for : ℕ → Handlers → ℕ → ℕ
handler_for i h other =
    if i == 0x0
    then h.int_division_by_zero
    else if i == 0x8
    then h.int_double_fail
    else if i == 0xB
    then h.int_segment_not_present
    else if i == 0xD
    then h.int_general_protect
    else if i == 0xE
    then h.int_page_fault
    else if i == 0x11
    then h.int_aligment_check
    else if i == 0x20
    then h.int_timer
    else if i == 0x21
    then h.int_keyboard
    else if i == 0x80
    then h.int_syscall
    else other

-- every handler is a 32-bit address
abbrev pub AreAddresses : Handlers → Type 0
AreAddresses h = (i : ℕ) → handler_for i h 0 < 2 ^ 32

-- the numbers that have a handler
abbrev pub is_used : ℕ → Bool
is_used i =
    (i == 0x0)
    || (i == 0x8)
    || (i == 0xB)
    || (i == 0xD)
    || (i == 0xE)
    || (i == 0x11)
    || (i == 0x20)
    || (i == 0x21)
    || (i == 0x80)

-- As the processor reads it, a gate to the handler in the kernel's code segment: present, of privilege 0, and a
-- 32-bit interrupt gate.
pub record IsGate (e : IdtEntry) (handler : ℕ) : Type 0 where
  pub offset : offset_of e ≡ handler
  pub segment : e.selector ≡ 0x08
  pub zero : e.zero_byte ≡ 0
  pub present : e.type_attr / 2 ^ 7 ≡ 1
  pub privilege : e.type_attr / 2 ^ 5 % 2 ^ 2 ≡ 0
  pub kind : e.type_attr % 2 ^ 5 ≡ 0b01110

idt_fill_entry-IsGate :
    (handler : ℕ)
    → handler < 2 ^ 32
    → IsGate (idt_fill_entry gdt_kcode_selector interrupt_gate handler) handler
unfolding idt_fill_entry
idt_fill_entry-IsGate handler h = record {
  offset = idt_fill_entry_lem gdt_kcode_selector interrupt_gate handler h;
  segment = refl;
  zero = refl;
  present = refl;
  privilege = refl;
  kind = refl;
}

filled_at :
    (i offset handler : ℕ) (table : ℕ → IdtEntry)
    → fill_gate offset handler table i
      ≡ (if i == offset then idt_fill_entry gdt_kcode_selector interrupt_gate handler else table i)
filled_at i offset handler table = elim (Bool-cases (offset == i)) [
  | inl e ↦ let same : (i == offset) ≡ true = ground arith in rw (e, same) refl
  | inr e ↦ let other : (i == offset) ≡ false = ground arith in rw (e, other) refl
]

filled_all :
    (h : Handlers) (t0 : ℕ → IdtEntry) (i : ℕ)
    → fill_all h t0 i ≡ (
        if is_used i
        then idt_fill_entry gdt_kcode_selector interrupt_gate (handler_for i h 0)
        else t0 i)
unfolding fill_all
filled_all h t0 i =
    let t1 = fill_gate 0x0 h.int_division_by_zero t0 in
    let t2 = fill_gate 0x8 h.int_double_fail t1 in
    let t3 = fill_gate 0xB h.int_segment_not_present t2 in
    let t4 = fill_gate 0xD h.int_general_protect t3 in
    let t5 = fill_gate 0x11 h.int_aligment_check t4 in
    let t6 = fill_gate 0xE h.int_page_fault t5 in
    let t7 = fill_gate 0x20 h.int_timer t6 in
    let t8 = fill_gate 0x21 h.int_keyboard t7 in
    let e1 = filled_at i 0x0 h.int_division_by_zero t0 in
    let e2 = filled_at i 0x8 h.int_double_fail t1 in
    let e3 = filled_at i 0xB h.int_segment_not_present t2 in
    let e4 = filled_at i 0xD h.int_general_protect t3 in
    let e5 = filled_at i 0x11 h.int_aligment_check t4 in
    let e6 = filled_at i 0xE h.int_page_fault t5 in
    let e7 = filled_at i 0x20 h.int_timer t6 in
    let e8 = filled_at i 0x21 h.int_keyboard t7 in
    let e9 = filled_at i 0x80 h.int_syscall t8 in ground (arith, e1, e2, e3, e4, e5, e6, e7, e8, e9)

-- After `idt_init`, for 32-bit addresses, lidt reads the address of the table and the limit 2048. Each number that
-- has a handler has a present gate of the kernel's code segment, of privilege 0, to the handler that the
-- number is meant to have, and the gate of every other number is what it was before.
pub idt_init_lem :
    (idt_address : ℕ) (h : Handlers) (t : Idt)
    → idt_address < 2 ^ 32
    → AreAddresses h
    → let r = idt_init idt_address h t in
      (r.idt_ptr0 % 2 ^ 16 ≡ 2048)
      × (r.idt_ptr0 / 2 ^ 16 + r.idt_ptr1 * 2 ^ 16 ≡ idt_address)
      × ((i : ℕ) → is_used i ≡ true → IsGate (r.idt_table i) (handler_for i h 0))
      × ((i : ℕ) → is_used i ≡ false → r.idt_table i ≡ t.idt_table i)
unfolding idt_init
idt_init_lem idt_address h t low a = (
  omega arith,
  omega arith,
  λ i u.
      let filled = filled_all h t.idt_table i in
      let gate : fill_all h t.idt_table i
          ≡ idt_fill_entry gdt_kcode_selector interrupt_gate (handler_for i h 0) =
        filled ∙ rw u refl in
      rw gate (idt_fill_entry-IsGate (handler_for i h 0) (a i)),
  λ i u. filled_all h t.idt_table i ∙ rw u refl,
)
