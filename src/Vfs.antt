-- ===== src/Vfs.antt =====
-- kernel/src/kernel/vfs: nodes, open files and devices.
-- Structures are found by address, and the three lists are circular lists of their addresses. A name is
-- a function from indices, so a byte behind its array is seen as such. The functions that a node or a file
-- points to are always set together, so `FsOps` and `FileOps` say whose they are. `fresh` holds the addresses
-- that the coming calls of kmalloc return. `world` is the state of the devices' drivers.
pub mod Store
pub mod Initrd
pub mod Devfs
pub mod Path
pub mod Files
use rubi_kernel.Prelude.{ℕ, List, ◌+◌, ◌*◌, ◌^◌}
use rubi_kernel.Klib.Text.{Mem}
use rubi_kernel.Klib.Clist.{Clist}

abbrev pub node_name_size : ℕ
node_name_size = 128

abbrev pub fs_file : ℕ
fs_file = 1

abbrev pub fs_directory : ℕ
fs_directory = 2

abbrev pub fs_chrdevice : ℕ
fs_chrdevice = 3

abbrev pub fs_mountpoint : ℕ
fs_mountpoint = 8

-- open, readdir and opennode of a node; close, finddir and ptr are 0 in every node
pub data FsOps : Type 0 where
  no_ops initrd_ops devfs_ops : FsOps

-- read, write and ioctl of a file
pub data FileOps : Type 0 where
  no_file_ops initrd_file_ops devfs_file_ops : FileOps

pub record FsNode : Type 0 where
  pub name : ℕ → ℕ
  pub flags : ℕ
  pub length : ℕ
  pub inode : ℕ
  pub impl : ℕ
  pub ops : FsOps

pub record Dirent : Type 0 where
  pub name : ℕ → ℕ
  pub ino : ℕ

pub record File : Type 0 where
  pub pos : ℕ
  pub node : ℕ
  pub mode : ℕ
  pub fd : ℕ
  pub private_data : ℕ
  pub ops : FileOps

-- read_fn and write_fn: from the buffer, the offset and the size to the result and the new offset
abbrev pub DevFn : Type 0 → Type 0
DevFn W = (buf offset size : ℕ) → Mem → W → ℕ × ℕ × Mem × W

pub record Dev (W : Type 0) : Type 0 where
  pub name : ℕ → ℕ
  pub read_fn : DevFn W
  pub write_fn : DevFn W
  pub cmd_fn : (command subcmd : ℕ) → W → W

pub record Vfs (W : Type 0) : Type 0 where
  pub mem : Mem
  pub fresh : List ℕ
  pub world : W
  pub ird_head : ℕ
  pub ird_root : ℕ
  pub nodes_list : Clist
  pub node : ℕ → FsNode
  pub dev_list : Clist
  pub dev : ℕ → Dev W
  pub fd_table : Clist
  pub next_fd : ℕ
  pub file : ℕ → File
