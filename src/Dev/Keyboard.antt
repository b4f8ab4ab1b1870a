-- ===== src/Dev/Keyboard.antt =====
-- kernel/src/kernel/dev/kb_driver.c: the commands to the keyboard and its answers. `sent` is what was
-- written to the keyboard's port, newest first. The only function ever stored in last_func is
-- kb_echo_func; `no_func` is NULL, and a call of it is a fault. Messages of klog are left out.
pub mod Resend
pub mod Tests
use rubi_kernel.Prelude.{
  ℕ, ◌+◌, ◌/◌, ◌%◌, Bool, ◌||◌, List, ◌∷◌, leb, ◌==◌, if◌then◌else◌, u8, Run, ok, fault, ◌>>=◌,
}

abbrev pub kb_status_idle : ℕ
kb_status_idle = 0

abbrev pub kb_status_resend0 : ℕ
kb_status_resend0 = 1

abbrev pub kb_status_resend2 : ℕ
kb_status_resend2 = 3

abbrev pub kb_status_failed : ℕ
kb_status_failed = 4

abbrev pub kb_status_in_work0 : ℕ
kb_status_in_work0 = 5

abbrev pub kb_data_echo : ℕ
kb_data_echo = 0xEE

abbrev pub kb_data_ack : ℕ
kb_data_ack = 0xFA

abbrev pub kb_data_resend : ℕ
kb_data_resend = 0xFE

pub data SendbyteFunc : Type 0 where
  no_func kb_echo_func : SendbyteFunc

pub record Keyboard : Type 0 where
  pub kb_status : ℕ
  pub kb_last_byte : ℕ
  pub kb_status_before_resend : ℕ
  pub last_func : SendbyteFunc
  pub sent : List ℕ

-- The last two cases assign to the parameter, so only the first changes the state.
unfoldable pub echo_step : Keyboard → ℕ × Keyboard
echo_step k =
    if k.kb_status == kb_status_idle
    then (kb_data_echo, record k { kb_status = kb_status_in_work0 })
    else (0, k)

unfoldable pub call_last_func : Keyboard → Run (ℕ × Keyboard)
call_last_func k = elim k.last_func [ no_func ↦ fault | kb_echo_func ↦ ok (echo_step k) ]

-- the test that the code makes: it holds for every status
abbrev pub in_resend : Keyboard → Bool
in_resend k = leb kb_status_resend0 k.kb_status || leb k.kb_status kb_status_resend2

-- the bit of the status port that says that the keyboard's input buffer is full
abbrev pub line_busy : ℕ → Bool
line_busy status = status / 2 % 2 == 1

-- the end of both senders
unfoldable pub send_byte : (status byte : ℕ) → Keyboard → Keyboard
send_byte status byte k =
    if (byte == 0) || line_busy status
    then k
    else record k { kb_last_byte = byte; sent = byte ∷ k.sent }

unfoldable pub resend : Keyboard → Run (ℕ × Keyboard)
resend k =
    let again = record k { kb_status = u8 (k.kb_status + 1) } in
    let first = record k { kb_status_before_resend = k.kb_status; kb_status = kb_status_resend0 } in
    if in_resend k
    then ok (k.kb_last_byte, again)
    else if k.kb_status == kb_status_failed
    then call_last_func k
    else ok (k.kb_last_byte, first)

-- the switch of keyboard_ih_low
unfoldable pub answer : (keycode : ℕ) → Keyboard → Run (ℕ × Keyboard)
answer keycode k =
    if keycode == kb_data_echo
    then call_last_func k
    else if keycode == kb_data_ack
    then call_last_func
        (if in_resend k then record k { kb_status = k.kb_status_before_resend } else k)
    else if keycode == kb_data_resend
    then resend k
    else ok (0, k)

unfoldable pub keyboard_ih_low : (keycode status : ℕ) → Keyboard → Run Keyboard
keyboard_ih_low keycode status k = do r ← answer keycode k; ok (send_byte status r.0 r.1)

unfoldable pub send_data : (status : ℕ) → Keyboard → Run Keyboard
send_data status k = do r ← call_last_func k; ok (send_byte status r.0 r.1)
