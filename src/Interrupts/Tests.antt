-- ===== src/Interrupts/Tests.antt =====
-- A ring of three devices at 10, 20 and 30, each with a handler at 10 that counts its calls.
use rubi_kernel.Prelude.{ℕ, ◌+◌, ◌≡◌, ◌≢◌, true, [], ◌∷◌, ok, arith}
use rubi_kernel.Klib.Slist.Chain.{has}
use rubi_kernel.Klib.Clist.Tests.{ring, ring-RingAt}
use rubi_kernel.DescriptorTables.Idt.{outb}
use rubi_kernel.Interrupts.{Devices, IhLow, keyboard_data, cint_keyboard}
use rubi_kernel.Interrupts.Dispatch.{each_first, cint_keyboard_lem}

abbrev counting : IhLow ℕ
counting = record { number = 0x21; subnumber = 2; handler = λ number low w. w + 1 }

abbrev devices : Devices ℕ
devices = record { dev_list = ring; ih_list = λ a. ring; ih_low = λ a. counting }

some_handler : (z : ℕ) → has z (10 ∷ 20 ∷ 30 ∷ []) ≡ true → (devices.ih_list z).head ≢ 0
some_handler z h e = omega arith

cint_keyboard_lem_example :
    cint_keyboard 3 1 0x1E devices [] 0
    ≡ ok (
      each_first devices (keyboard_data 1 0x1E) (10 ∷ 20 ∷ 30 ∷ []) 0,
      record { port = 0x20; value = 0x20 } ∷ [],
    )
unfolding outb
cint_keyboard_lem_example =
    cint_keyboard_lem 3 1 0x1E 10 (20 ∷ 30 ∷ []) devices [] 0 ring-RingAt some_handler (omega arith)
      (λ e. omega arith) (omega arith)
