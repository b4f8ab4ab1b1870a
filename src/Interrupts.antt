-- ===== src/Interrupts.antt =====
-- kernel/src/kernel/DT/int.c and keyboard.c: the interrupts of the timer and of the keyboard, and the search
-- for the drivers' handlers over the list of devices of kernel/src/kernel/dev/dev.c. A handler is a function
-- over a state `world` of the drivers. What is printed is left out, and the exceptions only print.
pub mod Dispatch
pub mod Tests
use rubi_kernel.Prelude.{
  ℕ, zero, suc, ◌+◌, ◌%◌, ◌^◌, bit_and, Bool, not, ◌&&◌, ◌||◌, List, [], ◌∷◌, leb, ◌==◌,
  if◌then◌else◌, u8, u32, Run, ok, fault, out_of_fuel, ◌>>=◌,
}
use rubi_kernel.Klib.Text.{Mem, strcmp}
use rubi_kernel.Klib.Clist.{ClistNode, Clist, clist_insert_after}
use rubi_kernel.DescriptorTables.Idt.{PortWrite, outb, pic1_cmd_port}
use rubi_kernel.Sched.Life.{Machine}
use rubi_kernel.Sched.Switch.{Switch, sched_schedule}

abbrev pub pic_eoi : ℕ
pic_eoi = 0x20

abbrev pub int_keyboard : ℕ
int_keyboard = 0x20 + 0x01

abbrev pub int_keyboard_new_data : ℕ
int_keyboard_new_data = 0x1

abbrev pub int_keyboard_new_key : ℕ
int_keyboard_new_key = 0x2

pub record KeyboardStatus : Type 0 where
  pub status : ℕ
  pub keycode : ℕ

pub record IhLowData : Type 0 where
  pub number : ℕ
  pub subnumber : ℕ
  pub data_ptr : KeyboardStatus

pub record IhLow (W : Type 0) : Type 0 where
  pub number : ℕ
  pub subnumber : ℕ
  pub handler : ℕ → IhLowData → W → W

-- the list of devices, and each device's list of handlers, by address
pub record Devices (W : Type 0) : Type 0 where
  pub dev_list : Clist
  pub ih_list : ℕ → Clist
  pub ih_low : ℕ → IhLow W

-- the counter of the timer, the ports, and the tasks
pub record Timer : Type 0 where
  pub counter : ℕ
  pub out : List PortWrite
  pub machine : Machine

unfoldable pub cint_timer : (fuel ret_addr reg_addr : ℕ) → Timer → Run (Timer × Switch)
cint_timer fuel ret_addr reg_addr t = do
  r ← sched_schedule fuel ret_addr reg_addr t.machine
  ok (record t { out = outb pic1_cmd_port pic_eoi t.out; counter = u32 (t.counter + 1) }, r)

-- the answers of the keyboard to a command
abbrev pub is_answer : ℕ → Bool
is_answer keycode =
    (keycode == 0xAA)
    || (keycode == 0xEE)
    || (keycode == 0xFA)
    || (keycode == 0xFC)
    || (keycode == 0xFD)
    || (keycode == 0xFE)
    || (keycode == 0xFF)

unfoldable pub keyboard_data : (status keycode : ℕ) → IhLowData
keyboard_data status keycode = record {
  number = int_keyboard;
  subnumber = if is_answer keycode then int_keyboard_new_data else int_keyboard_new_key;
  data_ptr = record { status = status; keycode = keycode };
}

module _ {W : Type 0} where
  -- the body of the loop of dev_each_low_ih_cb: whether a handler is called
  unfoldable pub try_handler : IhLow W → IhLowData → W → W
  try_handler ih low w =
      if ih.number == low.number
      then if not (bit_and ih.subnumber low.subnumber == 0) then ih.handler low.number low w else w
      else w

  -- The do-while loop, on fuel, which leaves `current` as it is.
  unfoldable pub try_from :
      (fuel current head : ℕ) → (ℕ → ClistNode) → (ℕ → IhLow W) → IhLowData → W → Run W
  try_from zero current head node ih_low low w = out_of_fuel
  try_from (suc fuel) current head node ih_low low w =
      let w1 = try_handler (ih_low (node current).data_ptr) low w in
      let rest = try_from fuel current head node ih_low low w1 in
      if current == 0
      then fault
      else if not (current == head) && not (current == 0)
      then rest
      else ok w1

  unfoldable pub dev_each_low_ih_cb : (fuel entry : ℕ) → IhLowData → Devices W → W → Run W
  dev_each_low_ih_cb fuel entry low d w =
      let l = d.ih_list entry in try_from fuel l.head l.head l.node d.ih_low low w

  -- the do-while loop of dev_for_each, on fuel
  unfoldable pub for_each_from :
      (fuel current head : ℕ) → (ℕ → W → Run W) → (ℕ → ClistNode) → W → Run W
  for_each_from zero current head callback node w = out_of_fuel
  for_each_from (suc fuel) current head callback node w =
      let next = (node current).next in
      let more = λ (w1 : W).
        if not (next == head) && not (next == 0)
        then for_each_from fuel next head callback node w1
        else ok w1 in
      if current == 0 then fault else callback (node current).data_ptr w >>= more

  unfoldable pub dev_for_each : (fuel : ℕ) → (ℕ → W → Run W) → Clist → W → Run W
  dev_for_each fuel callback dev_list w =
      for_each_from fuel dev_list.head dev_list.head callback dev_list.node w

  -- `status` and `keycode` are the bytes that the two ports give.
  unfoldable pub cint_keyboard :
      (fuel status keycode : ℕ) → Devices W → List PortWrite → W → Run (W × List PortWrite)
  cint_keyboard fuel status keycode d out w =
      let done = outb pic1_cmd_port pic_eoi out in
      let callback =
        λ (entry : ℕ). dev_each_low_ih_cb fuel entry (keyboard_data status keycode) d in
      let called = (do w1 ← dev_for_each fuel callback d.dev_list w; ok (w1, done)) in
      if (bit_and status 0x1 == 0) || not (leb 1 keycode) then ok (w, done) else called

  unfoldable pub dev_create : (fresh : ℕ) → Devices W → ℕ × Devices W
  dev_create fresh d =
      (fresh, record d { dev_list = clist_insert_after fresh d.dev_list.tail d.dev_list })
