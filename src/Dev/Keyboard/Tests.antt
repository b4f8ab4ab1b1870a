-- ===== src/Dev/Keyboard/Tests.antt =====
-- The keyboard driver on concrete states.
use rubi_kernel.Prelude.{◌≡◌, refl, [], ◌∷◌, arith, ok}
use rubi_kernel.Dev.Keyboard.{Keyboard, kb_echo_func, keyboard_ih_low}
use rubi_kernel.Dev.Keyboard.Resend.{resend_lem}

abbrev idle : Keyboard
idle = record {
  kb_status = 0;
  kb_last_byte = 0xEE;
  kb_status_before_resend = 0;
  last_func = kb_echo_func;
  sent = [];
}

resend_lem_example :
    keyboard_ih_low 0xFE 0 (record idle { kb_status = 4 })
    ≡ ok (record idle { kb_status = 5; sent = 0xEE ∷ [] })
resend_lem_example = resend_lem 0 (record idle { kb_status = 4 }) refl (λ e. omega arith)
