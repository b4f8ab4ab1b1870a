-- ===== src/Dev/Serial.antt =====
-- kernel/src/kernel/serial/serial.c: the serial line. `status i` is what the i-th read of the line's status
-- gives, and the writes to the ports are kept, newest first.
use rubi_kernel.Prelude.{
  ℕ, zero, suc, ◌+◌, ◌≤◌, ◌<◌, ◌≡◌, ◌≢◌, refl, ap, subst, ◌∙◌, true, false, bit_and, List, ◌∷◌,
  ◌==◌, if◌then◌else◌, Run, ok, out_of_fuel, ◌>>=◌, arith,
}
use rubi_kernel.DescriptorTables.Idt.{PortWrite, outb}

abbrev pub com1_port : ℕ
com1_port = 0x3F8

abbrev pub com2_port : ℕ
com2_port = 0x2F8

abbrev pub com3_port : ℕ
com3_port = 0x3E8

abbrev pub com4_port : ℕ
com4_port = 0x2E8

unfoldable pub select_serial : ℕ → ℕ
select_serial com_id =
    if com_id == 0
    then com1_port
    else if com_id == 1
    then com2_port
    else if com_id == 2
    then com3_port
    else if com_id == 4
    then com4_port
    else com1_port

unfoldable pub init_com : (com_id : ℕ) → List PortWrite → List PortWrite
init_com com_id out =
    let port = select_serial com_id in
    let o1 = outb (port + 3) 0x80 (outb (port + 1) 0x00 out) in
    let o2 = outb (port + 1) 0x00 (outb (port + 0) 0x03 o1) in
    let o3 = outb (port + 2) 0xC7 (outb (port + 3) 0x03 o2) in outb (port + 4) 0x0B o3

-- The loop waits for an empty buffer, on fuel; the value is the number of reads.
unfoldable pub wait_com : (fuel i : ℕ) → (ℕ → ℕ) → Run ℕ
wait_com zero i status = out_of_fuel
wait_com (suc fuel) i status =
    let rest = wait_com fuel (i + 1) status in
    if bit_and (status i) 0x20 == 0 then rest else ok (i + 1)

unfoldable pub write_com :
    (fuel com_id byte : ℕ) → (status : ℕ → ℕ) → List PortWrite → Run (ℕ × List PortWrite)
write_com fuel com_id byte status out = do
  reads ← wait_com fuel 0 status
  ok (reads, outb (select_serial com_id + 0) byte out)

wait_com_lem :
    (n i fuel : ℕ) (status : ℕ → ℕ)
    → ((k : ℕ) → i ≤ k → k < i + n → bit_and (status k) 0x20 ≡ 0)
    → bit_and (status (i + n)) 0x20 ≢ 0
    → n < fuel
    → wait_com fuel i status ≡ ok (i + n + 1)
unfolding wait_com
wait_com_lem n i zero status busy ready f = absurd (omega arith)
wait_com_lem zero i (suc fuel) status busy ready f =
    let here : i + 0 ≡ i = omega arith in
    let free : (bit_and (status i) 0x20 == 0) ≡ false =
      ground (arith, subst (λ k. bit_and (status k) 0x20 ≢ 0) here ready) in
    rw free (ap ok (omega arith))
wait_com_lem (suc n) i (suc fuel) status busy ready f =
    let wait : (bit_and (status i) 0x20 == 0) ≡ true =
      ground (arith, busy i (omega arith) (omega arith)) in
    let on : i + suc n ≡ i + 1 + n = omega arith in
    rw wait (
      wait_com_lem n (i + 1) fuel status (λ k a b. busy k (omega arith) (omega arith))
        (subst (λ k. bit_and (status k) 0x20 ≢ 0) on ready) (omega arith)
      ∙ ap ok (omega arith))

-- When the buffer is empty at the read with the number `n` and at none before, `write_com` with more fuel than
-- `n` reads the status so often and one time more, and then writes the byte to the port of the line.
pub write_com_lem :
    (n fuel com_id byte : ℕ) (status : ℕ → ℕ) (out : List PortWrite)
    → ((k : ℕ) → k < n → bit_and (status k) 0x20 ≡ 0)
    → bit_and (status n) 0x20 ≢ 0
    → n < fuel
    → write_com fuel com_id byte status out
      ≡ ok (n + 1, record { port = select_serial com_id + 0; value = byte } ∷ out)
unfolding write_com outb
write_com_lem n fuel com_id byte status out busy ready f =
    let here : 0 + n ≡ n = omega arith in
    let first : bit_and (status (0 + n)) 0x20 ≢ 0 = rw here ready in
    let reads = wait_com_lem n 0 fuel status (λ k a b. busy k (omega arith)) first f in
    rw (reads, here) refl
