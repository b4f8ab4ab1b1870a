-- ===== src/DescriptorTables/Tests.antt =====
-- A segment, and gates that lead nowhere.
use rubi_kernel.Prelude.{ℕ, ◌+◌, ◌*◌, ◌/◌, ◌%◌, ◌^◌, ◌≡◌, true, false, [], arith}
use rubi_kernel.DescriptorTables.{GdtRawEntry, GdtNormalEntry}
use rubi_kernel.DescriptorTables.Idt.{
  Handlers, Idt, AreAddresses, idt_init, idt_init_lem, is_used, IsGate, handler_for,
}

abbrev blank_entry : GdtRawEntry
blank_entry = record {
  limit_low = 0;
  base_low = 0;
  base_middle = 0;
  type = 0;
  s = 0;
  dpl = 0;
  p = 0;
  limit_high = 0;
  a = 0;
  zero_bit = 0;
  db = 0;
  g = 0;
  base_high = 0;
}

abbrev flat_code : GdtNormalEntry
flat_code = record {
  base = 0x12345678;
  limit = 0xFFFFFFFF;
  type = 10;
  s = 1;
  dpl = 0;
  p = 1;
  a = 0;
  db = 1;
  g = 0;
}

abbrev whole_space : GdtNormalEntry
whole_space = record flat_code { dpl = 3; type = 2 }

abbrev handlers : Handlers
handlers = record {
  int_division_by_zero = 0xC0100000;
  int_double_fail = 0xC0100020;
  int_segment_not_present = 0xC0100040;
  int_general_protect = 0xC0100060;
  int_aligment_check = 0xC0100080;
  int_page_fault = 0xC01000A0;
  int_timer = 0xC01000C0;
  int_keyboard = 0xC01000E0;
  int_syscall = 0xC0100100;
}

abbrev idt : Idt
idt = record {
  idt_table = λ i. record {
    offset_lowerbits = 0;
    selector = 0;
    zero_byte = 0;
    type_attr = 0;
    offset_higherbits = 0;
  };
  idt_ptr0 = 0;
  idt_ptr1 = 0;
  out = [];
}

handlers-AreAddresses : AreAddresses handlers
handlers-AreAddresses i = ground arith

idt_init_lem_example :
    let r = idt_init 0xC0200000 handlers idt in
    (r.idt_ptr0 % 2 ^ 16 ≡ 2048)
    × (r.idt_ptr0 / 2 ^ 16 + r.idt_ptr1 * 2 ^ 16 ≡ 0xC0200000)
    × ((i : ℕ) → is_used i ≡ true → IsGate (r.idt_table i) (handler_for i handlers 0))
    × ((i : ℕ) → is_used i ≡ false → r.idt_table i ≡ idt.idt_table i)
idt_init_lem_example = idt_init_lem 0xC0200000 handlers idt (omega arith) handlers-AreAddresses
