-- ===== src/Dev/Keyboard/Resend.antt =====
-- What the driver does on requests to resend, and after an echo.
use rubi_kernel.Prelude.{ℕ, ◌+◌, ◌≡◌, ◌≢◌, refl, true, false, ◌∷◌, arith, ◌==◌, u8, ok}
use rubi_kernel.Dev.Keyboard.{
  Keyboard, kb_echo_func, kb_data_echo, kb_data_resend, kb_status_idle, in_resend, line_busy,
  call_last_func, echo_step, send_byte, resend, answer, keyboard_ih_low, send_data,
}

always : (k : Keyboard) → in_resend k ≡ true
always k = ground arith

-- A request to resend, while the line is free, sends the last byte once more and adds one to the status modulo
-- 256, whatever the status is: the driver never gives up.
pub resend_lem :
    (status : ℕ) (k : Keyboard)
    → line_busy status ≡ false
    → k.kb_last_byte ≢ 0
    → keyboard_ih_low kb_data_resend status k
      ≡ ok (record k { kb_status = u8 (k.kb_status + 1); sent = k.kb_last_byte ∷ k.sent })
unfolding keyboard_ih_low answer resend send_byte
resend_lem status k free h =
    let some_byte : (k.kb_last_byte == 0) ≡ false = ground arith in
    rw (always k, some_byte, free) refl

called : (k : Keyboard) → k.last_func ≡ kb_echo_func → call_last_func k ≡ ok (echo_step k)
unfolding call_last_func
called k f = rw f refl

-- Once the driver has sent an echo from the idle status and the keyboard has echoed it, a further echo
-- sends nothing: the status stays in work.
pub echo_once :
    (status : ℕ) (k : Keyboard)
    → line_busy status ≡ false
    → k.last_func ≡ kb_echo_func
    → k.kb_status ≡ kb_status_idle
    → (k' : Keyboard) × (send_data status k ≡ ok k')
      × (k'.sent ≡ kb_data_echo ∷ k.sent)
      × (keyboard_ih_low kb_data_echo status k' ≡ ok k')
      × (send_data status k' ≡ ok k')
unfolding send_data keyboard_ih_low answer echo_step send_byte
echo_once status k free f e =
    let k' = record k {
      kb_status = 5;
      kb_last_byte = kb_data_echo;
      sent = kb_data_echo ∷ k.sent;
    } in
    (k', rw (called k f, e, free) refl, refl, rw (called k' f) refl, rw (called k' f) refl)
