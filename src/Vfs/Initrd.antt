-- ===== src/Vfs/Initrd.antt =====
-- kernel/src/kernel/vfs/fs/initrd.c: the read-only file system in the initial memory disk.
-- An entry is a packed header of 13 bytes, its name, and the bytes of the file, or for a directory the
-- 4-byte offsets of its entries. The address of an entry is a 32-bit sum; the sums from there on are taken
-- not to wrap.
pub mod Reading
pub mod Creation
pub mod Tests
use rubi_kernel.Prelude.{
  ℕ, true, false, ◌+◌, ◌-◌, ◌*◌, ◌^◌, Bool, ◌||◌, not, ltb, leb, ◌==◌, if◌then◌else◌, u32, update,
  Run, ok, ◌>>=◌,
}
use rubi_kernel.Klib.Text.{Mem, read32, memcpy}
use rubi_kernel.Vfs.{FsNode, initrd_ops, Dirent, File, initrd_file_ops, Vfs, fs_file, fs_directory}
use rubi_kernel.Vfs.Store.{find_fs_node_by_ino, get_new_node}

abbrev pub headmagic : ℕ
headmagic = 0xABCDABCD

abbrev pub filemagic : ℕ
filemagic = 0xAABBCCDD

abbrev pub initrdfs_file : ℕ
initrdfs_file = 1

abbrev pub initrdfs_dir : ℕ
initrdfs_dir = 2

pub record InitrdFileHead : Type 0 where
  pub magic : ℕ
  pub size : ℕ
  pub name_size : ℕ
  pub type : ℕ

-- sizeof(struct initrd_file_head_t)
abbrev pub head_size : ℕ
head_size = 13

unfoldable pub entry_at : Mem → ℕ → InitrdFileHead
entry_at m a = record {
  magic = read32 m a;
  size = read32 m (a + 4);
  name_size = read32 m (a + 8);
  type = m (a + 12);
}

-- a memcpy of `n` bytes to a name, and the NUL behind them
abbrev pub set_name : (src n : ℕ) → Mem → (ℕ → ℕ) → ℕ → ℕ
set_name src n m old i = if ltb i n then m (src + i) else if i == n then 0 else old i

-- the node of the entry at `addr`
unfoldable pub fill_node : (offset addr : ℕ) → Mem → FsNode → FsNode
fill_node offset addr m old =
    let e = entry_at m addr in
    record {
      name = set_name (addr + head_size) e.name_size m old.name;
      flags =
          if e.type == initrdfs_file
          then fs_file
          else if e.type == initrdfs_dir
          then fs_directory
          else 0;
      length = e.size;
      inode = offset;
      impl = 0;
      ops = initrd_ops;
    }

-- The guards of initrd_readdir and initrd_openddir. The second test of the magic number is the first
-- one again, so it never fails.
abbrev pub bad_index : InitrdFileHead → ℕ → Bool
bad_index e num = not (e.magic == filemagic) || not (e.type == initrdfs_dir) || leb e.size num

-- the offset that the directory at `addr` holds for its entry `num`
abbrev pub child_ino : (addr num : ℕ) → Mem → ℕ
child_ino addr num m = read32 m (addr + head_size + (entry_at m addr).name_size + 4 * num)

module _ {W : Type 0} where
  -- `(uint8_t *)ird_stat.head + ino`
  abbrev pub entry_addr : ℕ → Vfs W → ℕ
  entry_addr ino v = u32 (v.ird_head + ino)

  -- the node that the search found, or a new one
  unfoldable pub node_for : (found offset addr : ℕ) → Vfs W → Run (ℕ × Vfs W)
  node_for found offset addr v = elim (found == 0) [
    | false ↦ ok (found, v)
    | true ↦ do
      (a, v1) ← get_new_node v
      ok (a, record v1 { node = update v1.node a (fill_node offset addr v1.mem (v1.node a)) })
  ]

  unfoldable pub initrd_create_node : (fuel offset addr : ℕ) → Vfs W → Run (ℕ × Vfs W)
  initrd_create_node fuel offset addr v = do
    found ← find_fs_node_by_ino fuel offset v
    node_for found offset addr v

  unfoldable pub initrd_init : (fuel ptr : ℕ) → Vfs W → Run (Vfs W)
  initrd_init fuel ptr v = do
    let v1 = record v { ird_head = ptr }
    let offset = read32 v.mem (ptr + 4)
    let root = u32 (ptr + offset)
    let v2 = record v1 { ird_root = root }
    elim (read32 v.mem ptr == headmagic) [
      | false ↦ ok v1
      | true ↦ elim ((entry_at v.mem root).magic == filemagic) [
        | false ↦ ok v2
        | true ↦ do
          found ← find_fs_node_by_ino fuel offset v2
          elim (not (found == 0) || ((entry_at v.mem root).type == initrdfs_file)) [
            | true ↦ ok v2
            | false ↦ do (a, v3) ← initrd_create_node fuel offset root v2; ok v3
          ]
      ]
    ]

  -- the value returned, and the entry that is filled in
  unfoldable pub initrd_readdir : (node num : ℕ) → Dirent → Vfs W → ℕ × Dirent
  initrd_readdir node num dirent v =
      let addr = entry_addr (v.node node).inode v in
      let ino = child_ino addr num v.mem in
      let inner = entry_addr ino v in
      if bad_index (entry_at v.mem addr) num then (0, dirent) else (
        1,
        record {
          ino = ino;
          name = set_name (inner + head_size) (entry_at v.mem inner).name_size v.mem dirent.name;
        },
      )

  -- The value returned, and the memory. The sum of offset and size wraps; the offset is not changed.
  unfoldable pub initrd_read : (node offset size buff : ℕ) → Vfs W → ℕ × Mem
  initrd_read node offset size buff v =
      let addr = entry_addr (v.node node).inode v in
      let e = entry_at v.mem addr in
      let ret = if leb e.size (u32 (offset + size)) then e.size - offset else size in
      if leb e.size offset
      then (0, v.mem)
      else (ret, memcpy buff (addr + head_size + e.name_size + offset) ret v.mem)

  unfoldable pub initrd_open : (node file : ℕ) → Vfs W → ℕ × Vfs W
  initrd_open node file v =
      if (entry_at v.mem (entry_addr (v.node node).inode v)).type == initrdfs_file
      then (
        1,
        record v {
          file = update v.file file (record (v.file file) { node = node; ops = initrd_file_ops });
        },
      )
      else (0, v)

  unfoldable pub initrd_openddir : (fuel node num : ℕ) → Vfs W → Run (ℕ × Vfs W)
  initrd_openddir fuel node num v =
      let addr = entry_addr (v.node node).inode v in
      let next_num = child_ino addr num v.mem in
      elim (bad_index (entry_at v.mem addr) num) [
        | true ↦ ok (0, v)
        | false ↦ initrd_create_node fuel next_num (entry_addr next_num v) v
      ]
