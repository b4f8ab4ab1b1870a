-- ===== src/Interrupts/Dispatch.antt =====
-- Which handlers the interrupt of the keyboard calls.
use rubi_kernel.Prelude.{
  ℕ, zero, suc, ◌≤◌, ◌<◌, ◌≡◌, ◌≢◌, ◌∙◌, refl, ap, bit_and, true, false, List, [], ◌∷◌, length, leb,
  not, ◌||◌, ◌==◌, ==_iff, ==_refl, Run, ok, arith,
}
use rubi_kernel.Klib.Slist.Chain.{has}
use rubi_kernel.Klib.Clist.Ring.{Nodes, Links, IsRing}
use rubi_kernel.DescriptorTables.Idt.{PortWrite, outb, pic1_cmd_port}
use rubi_kernel.Interrupts.{
  IhLowData, Devices, pic_eoi, try_handler, try_from, dev_each_low_ih_cb, for_each_from,
  dev_for_each, keyboard_data, cint_keyboard,
}

module _ {W : Type 0} where
  -- the first handler of each device, in the devices' order
  abbrev pub each_first : Devices W → IhLowData → List ℕ → W → W
  each_first d low [] w = w
  each_first d low (x ∷ xs) w =
      let l = d.ih_list x in
      each_first d low xs (try_handler (d.ih_low (l.node l.head).data_ptr) low w)

  first_only :
      (fuel entry : ℕ) (low : IhLowData) (d : Devices W) (w : W)
      → 0 < fuel
      → (d.ih_list entry).head ≢ 0
      → dev_each_low_ih_cb fuel entry low d w ≡ ok (each_first d low (entry ∷ []) w)
  unfolding dev_each_low_ih_cb try_from
  first_only zero entry low d w f n = absurd (omega arith)
  first_only (suc fuel) entry low d w f n =
      let h = (d.ih_list entry).head in
      let real : (h == 0) ≡ false = ground arith in rw (real, ==_refl h) refl

  each_from :
      (fuel k x : ℕ) (head : ℕ) (ws : List ℕ) (node : Nodes) (low : IhLowData) (d : Devices W)
      (w : W)
      → Links node x ws head
      → ((z : ℕ) → has z (x ∷ ws) ≡ true → (node z).data_ptr ≡ z)
      → ((z : ℕ) → has z (x ∷ ws) ≡ true → (d.ih_list z).head ≢ 0)
      → has head ws ≡ false
      → has 0 (x ∷ ws) ≡ false
      → length ws < fuel
      → 0 < k
      → for_each_from fuel x head (λ entry. dev_each_low_ih_cb k entry low d) node w
        ≡ ok (each_first d low (x ∷ ws) w)
  unfolding for_each_from
  each_from zero k x head ws node low d w l self some new r f p = absurd (omega arith)
  each_from (suc fuel) k x head [] node low d w l self some new r f p =
      let real : (x == 0) ≡ false = ground (arith, ==_iff x 0, ==_iff 0 x) in
      let here = self x (ground (arith, ==_refl x)) in
      rw
        (real, here, first_only k x low d w p (some x (ground (arith, ==_refl x))), l, ==_refl head)
        refl
  each_from (suc fuel) k x head (v ∷ ws) node low d w l self some new r f p =
      let real : (x == 0) ≡ false = ground (arith, ==_iff x 0, ==_iff 0 x) in
      let live : (v == 0) ≡ false = ground (arith, ==_iff v 0, ==_iff 0 v) in
      let on : (v == head) ≡ false = ground (arith, ==_iff v head, ==_iff head v) in
      let here = self x (ground (arith, ==_refl x)) in
      let w1 = each_first d low (x ∷ []) w in
      rw (real, here, first_only k x low d w p (some x (ground (arith, ==_refl x))), l.0, on, live)
        (each_from fuel k v head ws node low d w1 l.1 (λ z h. self z (ground arith))
          (λ z h. some z (ground arith)) (ground arith) (ground arith) (omega arith) p)

  -- On a ring of devices that each have a handler, given fuel for each, when the keyboard has a byte that is
  -- not 0: `cint_keyboard` ends, it tries the first handler of each device, in the order of the ring, and no
  -- other handler, and it acknowledges the interrupt.
  pub cint_keyboard_lem :
      (fuel status keycode x : ℕ) (ws : List ℕ) (d : Devices W) (out : List PortWrite) (w : W)
      → IsRing d.dev_list (x ∷ ws)
      → ((z : ℕ) → has z (x ∷ ws) ≡ true → (d.ih_list z).head ≢ 0)
      → length ws < fuel
      → bit_and status 0x1 ≢ 0
      → 1 ≤ keycode
      → cint_keyboard fuel status keycode d out w
        ≡ ok
            (each_first d (keyboard_data status keycode) (x ∷ ws) w, outb pic1_cmd_port pic_eoi out)
  unfolding cint_keyboard dev_for_each
  cint_keyboard_lem fuel status keycode x ws d out w r some f b k =
      let full : ((bit_and status 0x1 == 0) || not (leb 1 keycode)) ≡ false = ground arith in
      let all =
        each_from fuel fuel x x ws d.dev_list.node (keyboard_data status keycode) d w r.links r.self
          some r.distinct.0 r.non_null f (omega arith) in
      let callback : ℕ → W → Run W =
        λ entry. dev_each_low_ih_cb fuel entry (keyboard_data status keycode) d in
      let from_head : dev_for_each fuel callback d.dev_list w
          ≡ ok (each_first d (keyboard_data status keycode) (x ∷ ws) w) =
        ap (λ h. for_each_from fuel h h callback d.dev_list.node w) r.head_eq ∙ all in
      rw (full, from_head) refl
