-- ===== src/Klib/Slist/Valid.antt =====
-- The invariant of a slot list: it holds the elements `xs`, in order, and every other slot is free.
use rubi_kernel.Prelude.{ℕ, ◌<◌, ◌≡◌, ◌≢◌, true, false, not, ◌&&◌, List, arith, ◌==◌, if◌then◌else◌}
use rubi_kernel.Klib.Slist.{null, Slist, slot_at, fresh_node, link_in}
use rubi_kernel.Klib.Slist.Chain.{Chain, has, Distinct, first_or, last_or}

pub record IsList {P : Type 0} (s : Slist P) (xs : List ℕ) : Type 0 where
  pub chain : Chain s.node null xs null
  pub head_eq : s.head ≡ first_or null xs
  pub tail_eq : s.tail ≡ last_or null xs
  pub distinct : Distinct xs
  pub non_null : has null xs ≡ false
  pub live : (x : ℕ) → has x xs ≡ true → ((s.node x).is_valid ≡ 1) × ((s.node x).data_ptr ≡ x)
  pub dead :
      (i : ℕ) → i < s.slots → has (slot_at s i) xs ≡ false → (s.node (slot_at s i)).is_valid ≡ 0
  pub based : 0 < s.base

module _ {P : Type 0} (z : P) (e u v : ℕ) (s : Slist P) where
  pub link_prev :
      (x : ℕ)
      → x ≢ e
      → ((link_in z e u v s).node x).prev
        ≡ (if (x == v) && not (v == null) then e else (s.node x).prev)
  unfolding link_in
  link_prev x h = ground arith

  pub link_next :
      (x : ℕ)
      → x ≢ e
      → ((link_in z e u v s).node x).next
        ≡ (if (x == u) && not (u == null) then e else (s.node x).next)
  unfolding link_in
  link_next x h = ground arith

  pub link_old :
      (x : ℕ)
      → x ≢ e
      → (((link_in z e u v s).node x).is_valid ≡ (s.node x).is_valid)
        × (((link_in z e u v s).node x).data_ptr ≡ (s.node x).data_ptr)
        × ((link_in z e u v s).payload x ≡ s.payload x)
  unfolding link_in
  link_old x h = (ground arith, ground arith, ground arith)

  pub link_new : u ≢ e → v ≢ e → (link_in z e u v s).node e ≡ fresh_node z e u v
  unfolding link_in
  link_new hu hv = ground arith

  pub link_rest :
      ((link_in z e u v s).head ≡ s.head)
      × ((link_in z e u v s).tail ≡ s.tail)
      × ((link_in z e u v s).slots ≡ s.slots)
      × ((link_in z e u v s).base ≡ s.base)
      × ((link_in z e u v s).slot_size ≡ s.slot_size)
      × ((link_in z e u v s).payload e ≡ z)
  unfolding link_in
  link_rest = (ground arith, ground arith, ground arith, ground arith, ground arith, ground arith)
