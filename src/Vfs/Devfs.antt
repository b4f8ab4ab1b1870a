-- ===== src/Vfs/Devfs.antt =====
-- kernel/src/kernel/vfs/fs/devfs.c: the devices as files. The inode of a node is the device's index.
use rubi_kernel.Prelude.{
  ℕ, zero, suc, true, false, ◌+◌, ◌||◌, not, ltb, leb, ◌==◌, if◌then◌else◌, bit_and, bit_or, update,
  Run, ok, ◌>>=◌,
}
use rubi_kernel.Klib.Clist.{clist_get}
use rubi_kernel.Vfs.{
  FsNode, devfs_ops, Dirent, devfs_file_ops, Dev, DevFn, Vfs, fs_directory, fs_chrdevice,
  fs_mountpoint,
}
use rubi_kernel.Vfs.Store.{find_fs_node_by_ino, get_new_node}

-- memcpy of the 8 bytes of a device's name to a node's, and the NUL behind them
abbrev pub copy_dev_name : (src old : ℕ → ℕ) → ℕ → ℕ
copy_dev_name src old i = if ltb i 8 then src i else if i == 8 then 0 else old i

-- strcpy of a device's name. dev_create's callers end it with a NUL; with none in the 8 bytes the code's
-- strcpy would run on, and this one stops.
unfoldable pub strcpy_name : (rounds i : ℕ) → (src old : ℕ → ℕ) → ℕ → ℕ
strcpy_name zero i src old = old
strcpy_name (suc rounds) i src old =
    let rest = strcpy_name rounds (i + 1) src (update old i (src i)) in
    if src i == 0 then update old i 0 else rest

module _ {W : Type 0} where
  -- the address of the device at an index, NULL for none
  unfoldable pub dev_at : ℕ → Vfs W → ℕ
  dev_at id v =
      let entry = clist_get id v.dev_list in
      if entry == 0 then 0 else (v.dev_list.node entry).data_ptr

  unfoldable pub fill_dev_node : (id d : ℕ) → Vfs W → FsNode → FsNode
  fill_dev_node id d v old = record {
    name = copy_dev_name (v.dev d).name old.name;
    flags = fs_chrdevice;
    length = 0;
    inode = id;
    impl = 1;
    ops = devfs_ops;
  }

  -- With no device at the index the new node stays in the list as it is.
  unfoldable pub devfs_create_node : (fuel id : ℕ) → Vfs W → Run (ℕ × Vfs W)
  devfs_create_node fuel id v = do
    found ← find_fs_node_by_ino fuel id v
    elim (found == 0) [
      | false ↦ ok (found, v)
      | true ↦ do
        (a, v1) ← get_new_node v
        let d = dev_at id v1
        let filled = record v1 { node = update v1.node a (fill_dev_node id d v1 (v1.node a)) }
        ok (if d == 0 then (0, v1) else (a, filled))
    ]

  unfoldable pub devfs_mount : (node : ℕ) → Vfs W → Vfs W
  devfs_mount node v =
      let n = v.node node in
      record v {
        node = update v.node node (record n {
          flags = bit_or fs_directory fs_mountpoint;
          length = v.dev_list.slots;
          impl = 1;
          ops = devfs_ops;
        });
      }

  unfoldable pub devfs_readdir : (node num : ℕ) → Dirent → Vfs W → ℕ × Dirent
  devfs_readdir node num dirent v =
      let d = dev_at num v in
      if not (bit_and (v.node node).flags fs_directory == fs_directory)
        || leb v.dev_list.slots num
        || (d == 0)
      then (0, dirent)
      else (1, record { ino = num; name = strcpy_name 8 0 (v.dev d).name dirent.name })

  unfoldable pub devfs_openddir : (fuel node num : ℕ) → Vfs W → Run (ℕ × Vfs W)
  devfs_openddir fuel node num v = devfs_create_node fuel num v

  -- devfs_read and devfs_write, with read_fn or write_fn: the value, the new offset and the state
  unfoldable pub devfs_rw : (Dev W → DevFn W) → (file offset size buff : ℕ) → Vfs W → ℕ × ℕ × Vfs W
  devfs_rw fn file offset size buff v =
      let d = (v.file file).private_data in
      let (ret, offset', m, w) = fn (v.dev d) buff offset size v.mem v.world in
      if d == 0 then (0, offset, v) else (ret, offset', record v { mem = m; world = w })

  unfoldable pub devfs_ioctl : (file cmd subcmd : ℕ) → Vfs W → ℕ × Vfs W
  devfs_ioctl file cmd subcmd v =
      let d = (v.file file).private_data in
      if d == 0 then (0, v) else (0, record v { world = (v.dev d).cmd_fn cmd subcmd v.world })

  unfoldable pub devfs_open : (node file : ℕ) → Vfs W → ℕ × Vfs W
  devfs_open node file v =
      let d = dev_at (v.node node).inode v in
      if d == 0 then (0, v) else (
        1,
        record v {
          file =
              update v.file file
                (record (v.file file) { private_data = d; node = node; ops = devfs_file_ops });
        },
      )
