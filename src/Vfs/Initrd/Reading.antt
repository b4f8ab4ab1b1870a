-- ===== src/Vfs/Initrd/Reading.antt =====
-- What initrd_read copies.
use rubi_kernel.Prelude.{
  ℕ, ◌+◌, ◌-◌, ◌^◌, ◌<◌, ◌≡◌, inl, inr, refl, true, false, arith, leb, if◌then◌else◌, Bool-cases,
  min, u32,
}
use rubi_kernel.Klib.Text.{memcpy}
use rubi_kernel.Klib.Text.Memory.{Apart, inside, memcpy_lem}
use rubi_kernel.Vfs.{Vfs}
use rubi_kernel.Vfs.Initrd.{InitrdFileHead, entry_at, entry_addr, head_size, initrd_read}

module _ {W : Type 0} (node : ℕ) (v : Vfs W) where
  -- the header of the node's entry, and the address of its bytes
  abbrev pub entry_of : InitrdFileHead
  entry_of = entry_at v.mem (entry_addr (v.node node).inode v)

  abbrev pub bytes_of : ℕ
  bytes_of = entry_addr (v.node node).inode v + head_size + entry_of.name_size

  past_end :
      (offset size buff : ℕ)
      → leb entry_of.size offset ≡ true
      → initrd_read node offset size buff v ≡ (0, v.mem)
  unfolding initrd_read
  past_end offset size buff h = rw h refl

  in_file :
      (offset size buff n : ℕ)
      → leb entry_of.size offset ≡ false
      → (if leb entry_of.size (u32 (offset + size)) then entry_of.size - offset else size) ≡ n
      → initrd_read node offset size buff v ≡ (n, memcpy buff (bytes_of + offset) n v.mem)
  unfolding initrd_read
  in_file offset size buff n h e = rw (h, e) refl

  -- When the sum of offset and size does not wrap, and the buffer does not begin inside what is read, `initrd_read`
  -- returns the smaller of the size and what is left of the file behind the offset; the buffer holds that
  -- many bytes of the file from the offset on, and nothing else changes.
  pub initrd_read_lem :
      (offset size buff x : ℕ)
      → offset + size < 2 ^ 32
      → Apart buff (bytes_of + offset) (min size (entry_of.size - offset))
      → ((initrd_read node offset size buff v).0 ≡ min size (entry_of.size - offset))
        × ((initrd_read node offset size buff v).1 x ≡ (
            if inside buff (min size (entry_of.size - offset)) x
            then v.mem (bytes_of + offset + (x - buff))
            else v.mem x))
  initrd_read_lem offset size buff x h a = elim (Bool-cases (leb entry_of.size offset)) [
    | inl e ↦
        let none_left : min size (entry_of.size - offset) ≡ 0 = ground arith in
        let outside : inside buff 0 x ≡ false = ground arith in
        rw (past_end offset size buff e, none_left, outside) (refl, refl)
    | inr e ↦
        let n = min size (entry_of.size - offset) in
        let whole : u32 (offset + size) ≡ offset + size = omega arith in
        let count : (if leb entry_of.size (u32 (offset + size))
              then entry_of.size - offset
              else size)
            ≡ n =
          rw whole (ground arith) in
        rw (in_file offset size buff n e count)
          (refl, memcpy_lem buff (bytes_of + offset) n v.mem x a)
  ]
