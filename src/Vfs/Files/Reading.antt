-- ===== src/Vfs/Files/Reading.antt =====
-- Reading an open file of the memory disk.
use rubi_kernel.Prelude.{
  ℕ, ◌≤◌, ◌≡◌, ◌≢◌, refl, ap, false, List, length, arith, ◌==◌, ==_iff, Bool-cases, inl, inr, ok,
}
use rubi_kernel.Klib.Clist.Ring.{IsRing}
use rubi_kernel.Klib.Clist.Find.{first_match, find_owner_lem}
use rubi_kernel.Vfs.{initrd_file_ops, Vfs}
use rubi_kernel.Vfs.Initrd.{initrd_read}
use rubi_kernel.Vfs.Files.{find_file_by_fd, call_read, set_pos, read_found, file_read}

-- the first open file with the number, NULL for none
abbrev pub file_of : {W : Type 0} → ℕ → Vfs W → List ℕ → ℕ
file_of fd v xs = first_match (λ a. (v.file a).fd == fd) xs

-- the state when the read is from the memory disk
abbrev pub after_read : {W : Type 0} → (fd : ℕ) (v : Vfs W) (xs : List ℕ) (buff size : ℕ) → Vfs W
after_read fd v xs buff size =
    let f = file_of fd v xs in
    set_pos f (v.file f).pos
      (record v { mem = (initrd_read (v.file f).node (v.file f).pos size buff v).1 })

module _ {W : Type 0} (fuel fd : ℕ) (v : Vfs W) (xs : List ℕ) (r : IsRing v.fd_table xs)
    (b : length xs ≤ fuel) where
  find_file_lem : find_file_by_fd fuel fd v ≡ ok (file_of fd v xs)
  unfolding find_file_by_fd
  find_file_lem = find_owner_lem fuel (λ a. (v.file a).fd == fd) v.fd_table xs r b

  call_initrd :
      (f offset size buff : ℕ)
      → (v.file f).ops ≡ initrd_file_ops
      → call_read f offset size buff v
        ≡ ok (
          (initrd_read (v.file f).node offset size buff v).0,
          offset,
          record v { mem = (initrd_read (v.file f).node offset size buff v).1 },
        )
  unfolding call_read
  call_initrd f offset size buff e = rw (call_read, e) refl

  -- On a valid table of open files, given fuel for each, `file_read` of a file of the memory disk ends, returns
  -- what `initrd_read` returns at the file's position, and leaves the position of the file, and every file of
  -- the table, as it was.
  pub file_read_lem :
      (buff size z : ℕ)
      → file_of fd v xs ≢ 0
      → (v.file (file_of fd v xs)).ops ≡ initrd_file_ops
      → (file_read fuel fd buff size v
          ≡ ok (
            (initrd_read
                (v.file (file_of fd v xs)).node
                (v.file (file_of fd v xs)).pos
                size
                buff
                v).0,
            after_read fd v xs buff size,
          ))
        × ((after_read fd v xs buff size).file z ≡ v.file z)
  unfolding file_read read_found
  file_read_lem buff size z n e =
      let f = file_of fd v xs in
      let real : (f == 0) ≡ false = ground arith in
      let same : (after_read fd v xs buff size).file z ≡ v.file z = elim (Bool-cases (f == z)) [
        | inl k ↦ rw k (ap (λ a. v.file a) ((==_iff f z).0 k))
        | inr k ↦ rw k refl
      ] in
      (rw (find_file_lem, read_found, real, call_initrd f (v.file f).pos size buff e) refl, same)
