-- ===== src/Vfs/Files.antt =====
-- kernel/src/kernel/vfs/file.c: the open files of the current task. `-1` is 2 ^ 32 - 1.
pub mod Reading
pub mod Tests
use rubi_kernel.Prelude.{
  ℕ, true, false, ◌+◌, ◌-◌, ◌^◌, ◌==◌, if◌then◌else◌, u32, update, Run, ok, fault, ◌>>=◌,
}
use rubi_kernel.Klib.Clist.{clist_insert_after, clist_delete, clist_find}
use rubi_kernel.Vfs.{
  no_ops, initrd_ops, devfs_ops, Dirent, no_file_ops, initrd_file_ops, devfs_file_ops, Vfs,
}
use rubi_kernel.Vfs.Store.{take_fresh}
use rubi_kernel.Vfs.Initrd.{initrd_read, initrd_open}
use rubi_kernel.Vfs.Devfs.{devfs_rw, devfs_ioctl, devfs_open}
use rubi_kernel.Vfs.Path.{resolve_path}

abbrev pub failed : ℕ
failed = 2 ^ 32 - 1

module _ {W : Type 0} where
  -- the file with the number, NULL for none
  unfoldable pub find_file_by_fd : (fuel fd : ℕ) → Vfs W → Run ℕ
  find_file_by_fd fuel fd v = do
    let at = λ (entry : ℕ). (v.fd_table.node entry).data_ptr
    entry ← clist_find fuel (λ entry. (v.file (at entry)).fd == fd) v.fd_table
    ok (if entry == 0 then 0 else at entry)

  -- `node->open(node, file)`
  unfoldable pub open_node : (node file : ℕ) → Vfs W → Run (ℕ × Vfs W)
  open_node node file v = elim (v.node node).ops [
    | no_ops ↦ fault
    | initrd_ops ↦ ok (initrd_open node file v)
    | devfs_ops ↦ ok (devfs_open node file v)
  ]

  -- the fields that file_open sets once the node is open
  unfoldable pub number_file : (file mod_rw : ℕ) → Vfs W → ℕ × Vfs W
  number_file file mod_rw v = (
    v.next_fd,
    record v {
      next_fd = u32 (v.next_fd + 1);
      file = update v.file file (record (v.file file) { fd = v.next_fd; mode = mod_rw; pos = 0 });
    },
  )

  unfoldable pub file_open :
      (fuel path mod_rw : ℕ) → (part : ℕ → ℕ) → Dirent → Vfs W → Run (ℕ × Vfs W)
  file_open fuel path mod_rw part dirent v = do
    (node, v1) ← resolve_path fuel path part dirent v
    elim (node == 0) [
      | true ↦ ok (failed, v1)
      | false ↦ do
        (file, v2) ← take_fresh v1
        let v3 = record v2 { fd_table = clist_insert_after file v2.fd_table.tail v2.fd_table }
        (opened, v4) ← open_node node file v3
        elim (opened == 0) [
          | true ↦ ok (failed, record v4 { fd_table = clist_delete file v4.fd_table })
          | false ↦ ok (number_file file mod_rw v4)
        ]
    ]

  -- `file->read` and `file->write`: the value, the new offset and the state
  unfoldable pub call_read : (file offset size buff : ℕ) → Vfs W → Run (ℕ × ℕ × Vfs W)
  call_read file offset size buff v = elim (v.file file).ops [
    | no_file_ops ↦ fault
    | initrd_file_ops ↦
        let (ret, m) = initrd_read (v.file file).node offset size buff v in
        ok (ret, offset, record v { mem = m })
    | devfs_file_ops ↦ ok (devfs_rw (λ d. d.read_fn) file offset size buff v)
  ]

  unfoldable pub call_write : (file offset size buff : ℕ) → Vfs W → Run (ℕ × ℕ × Vfs W)
  call_write file offset size buff v = elim (v.file file).ops [
    | no_file_ops ↦ fault
    | initrd_file_ops ↦ ok (0, offset, v)
    | devfs_file_ops ↦ ok (devfs_rw (λ d. d.write_fn) file offset size buff v)
  ]

  -- file_read and file_write around the call: the offset is read from the file and stored in it
  abbrev pub set_pos : (file offset : ℕ) → Vfs W → Vfs W
  set_pos file offset v = record v {
    file = update v.file file (record (v.file file) { pos = offset });
  }

  -- file_read behind the search for the file
  unfoldable pub read_found : (file buff size : ℕ) → Vfs W → Run (ℕ × Vfs W)
  read_found file buff size v = elim (file == 0) [
    | true ↦ ok (failed, v)
    | false ↦ do
      (ret, offset, v1) ← call_read file (v.file file).pos size buff v
      ok (ret, set_pos file offset v1)
  ]

  unfoldable pub file_read : (fuel fd buff size : ℕ) → Vfs W → Run (ℕ × Vfs W)
  file_read fuel fd buff size v = do file ← find_file_by_fd fuel fd v; read_found file buff size v

  unfoldable pub file_write : (fuel fd buff size : ℕ) → Vfs W → Run (ℕ × Vfs W)
  file_write fuel fd buff size v = do
    file ← find_file_by_fd fuel fd v
    elim (file == 0) [
      | true ↦ ok (failed, v)
      | false ↦ do
        (ret, offset, v1) ← call_write file (v.file file).pos size buff v
        ok (ret, set_pos file offset v1)
    ]

  unfoldable pub file_ioctl : (fuel fd cmd subcmd : ℕ) → Vfs W → Run (ℕ × Vfs W)
  file_ioctl fuel fd cmd subcmd v = do
    file ← find_file_by_fd fuel fd v
    elim (file == 0) [
      | true ↦ ok (failed, v)
      | false ↦ elim (v.file file).ops [
        | no_file_ops ↦ fault
        | initrd_file_ops ↦ ok (0, v)
        | devfs_file_ops ↦ ok (devfs_ioctl file cmd subcmd v)
      ]
    ]
